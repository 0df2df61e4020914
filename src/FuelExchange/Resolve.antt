-- ===== src/FuelExchange/Resolve.antt =====
-- src/modules/fuel-exchange/fuel-exchange.service.ts: `award`, `withdraw` and whom they tell.
use ciro_fuel_backend.Prelude.{
  ℕ, ◌*◌, ◌&&◌, none, some, List, map, filter, find?, find_one_and_update, ◌==◌, Result, ok, err,
  ◌>>=◌, or_throw, get_or, if◌then◌else◌,
}
use ciro_fuel_backend.Money.{round_currency}
use ciro_fuel_backend.FuelExchange.{
  ExchangeOffer, ExchangeProposal, Exchange, ExchangeError, offer_not_found, proposal_not_found,
  exchange_already_resolved, awarded_state, withdrawn, awarded, not_selected, offer_key, is_open,
  is_declined, is_proposed, is_not_selected, find_offer,
}

-- The first read of `award` and `withdraw`: an offer of the acting company's own.
unfoldable pub find_own_offer : ℕ → ℕ → List ExchangeOffer → Result ExchangeError ExchangeOffer
find_own_offer acting id offers = or_throw (find_offer acting id offers) offer_not_found >>= λ o.
    if o.raised_by_company_id == acting then ok o else err offer_not_found

-- The proposal that is named, if it answers the offer and is no decline.
unfoldable pub find_awardable :
    ℕ → ℕ → List ExchangeProposal → Result ExchangeError ExchangeProposal
find_awardable offer_id proposal_id proposals =
    or_throw (find? (λ p. (p.id == proposal_id) && (p.offer_id == offer_id)) proposals)
      proposal_not_found
    >>= λ p. if is_declined p.outcome then err proposal_not_found else ok p

-- The offer's `$set` of an award. A proposal that is no decline has a price.
unfoldable pub award_offer : ExchangeProposal → ℕ → ℕ → ExchangeOffer → ExchangeOffer
award_offer p user now o = record o {
  state = awarded_state;
  awarded_proposal_id = some p.id;
  awarded_company_id = some p.proposing_company_id;
  agreed_unit_price = p.unit_price;
  agreed_total = some (round_currency (get_or p.unit_price 0 * o.quantity_litres) 100000);
  agreed_quantity_litres = some o.quantity_litres;
  resolved_by = some user;
  resolved_at = some now;
}

-- What the two updates that follow leave of a proposal: the winner's, then every other's on the
-- offer.
unfoldable pub settle_proposal : ℕ → ℕ → ℕ → ExchangeProposal → ExchangeProposal
settle_proposal offer_id winner now p =
    if p.id == winner
    then record p { outcome = awarded; resolved_at = some now }
    else if p.offer_id == offer_id
    then record p { outcome = not_selected; resolved_at = some now }
    else p

-- `notifyAward`: the companies of the proposals that the award left unselected.
unfoldable pub losers : ℕ → List ExchangeProposal → List ℕ
losers offer_id proposals =
    map (λ (p : ExchangeProposal). p.proposing_company_id)
      (filter (λ p. (p.offer_id == offer_id) && is_not_selected p.outcome) proposals)

pub record Awarded : Type 0 where
  pub offer : ExchangeOffer
  pub winner : ℕ
  pub told_closed : List ℕ
  pub exchange : Exchange

-- The transaction of `award`, and the notifications.
unfoldable pub award_to :
    ExchangeOffer → ExchangeProposal → ℕ → ℕ → Exchange → Result ExchangeError Awarded
award_to offer p user now x =
    let proposals : List ExchangeProposal = map (settle_proposal offer.id p.id now) x.proposals in
    elim (find_one_and_update offer_key offer.id (λ o. is_open o.state) (award_offer p user now)
      x.offers) [
        | none ↦ err exchange_already_resolved
        | some (o, offers) ↦ ok (record {
          offer = o;
          winner = p.proposing_company_id;
          told_closed = losers offer.id proposals;
          exchange = record { offers = offers; proposals = proposals };
        })
      ]

unfoldable pub award : ℕ → ℕ → ℕ → ℕ → ℕ → Exchange → Result ExchangeError Awarded
award offer_id acting user proposal_id now x = do
  offer ← find_own_offer acting offer_id x.offers
  p ← find_awardable offer.id proposal_id x.proposals
  award_to offer p user now x

unfoldable pub withdraw_offer : ℕ → ℕ → ExchangeOffer → ExchangeOffer
withdraw_offer user now o = record o {
  state = withdrawn;
  resolved_by = some user;
  resolved_at = some now;
}

-- `withdraw`: the offer, and the companies with a live proposal.
unfoldable pub withdraw :
    ℕ → ℕ → ℕ → ℕ → Exchange → Result ExchangeError (ExchangeOffer × List ℕ × Exchange)
withdraw offer_id acting user now x = do
  offer ← find_own_offer acting offer_id x.offers
  elim (find_one_and_update offer_key offer.id (λ o. is_open o.state) (withdraw_offer user now)
      x.offers) [
        | none ↦ err exchange_already_resolved
        | some (o, offers) ↦ ok (
          o,
          map (λ (p : ExchangeProposal). p.proposing_company_id)
              (filter (λ p. (p.offer_id == offer.id) && is_proposed p.outcome) x.proposals),
          record x { offers = offers },
        )
      ]
