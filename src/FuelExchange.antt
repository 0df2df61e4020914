-- ===== src/FuelExchange.antt =====
-- src/modules/fuel-exchange/fuel-exchange.service.ts with its two schemas: an offer to the market,
-- the proposals that answer it, and its award or withdrawal. The scope of every read is that of
-- src/common/plugins/party-set-scope.plugin.ts and proposal-scope.plugin.ts. A quantity is in
-- millilitres, a price per litre in SAR 0.0001. The offer's place and notes, which no rule reads,
-- are left out, and a company stands for its own name and contacts.
pub mod Raise
pub mod Answer
pub mod Resolve
pub mod Detail
pub mod Resolution
pub mod Disclosure
mod Tests
use ciro_fuel_backend.Prelude.{
  ℕ, ◌+◌, ◌*◌, ◌≡◌, Bool, true, false, not, ◌&&◌, ◌||◌, Option, none, some, List, [], ◌∷◌, ◌++◌,
  any, filter, map, leb, length, count, find?, find_by_id, replace, find_one_and_update, is_id,
  is_some, ◌==◌, Result, ok, err, ◌>>=◌, ◌>>◌, throw_if, or_throw, if◌then◌else◌,
}
use mathlib.Core.Option
use ciro_fuel_backend.Money.{round_currency}
use ciro_fuel_backend.Order.{FuelType, same_fuel}
use ciro_fuel_backend.Companies.{
  Company, company_id, get_base_price, is_active, find_active_fuel_companies_selling_grade,
  find_suspended_fuel_company_ids, sells,
}

pub data ExchangeOfferState : Type 0 where
  open_state awarded_state withdrawn closed_no_award : ExchangeOfferState

pub data ProposalOutcome : Type 0 where
  proposed declined awarded not_selected : ProposalOutcome

pub record ExchangeOffer : Type 0 where
  pub id : ℕ
  pub party_company_ids : List ℕ
  pub open_to_market : Bool
  pub raised_by_company_id : ℕ
  pub raised_by_user_id : ℕ
  pub fuel_type : FuelType
  pub quantity_litres : ℕ
  pub delivery_at : ℕ
  pub state : ExchangeOfferState
  pub awarded_proposal_id : Option ℕ
  pub awarded_company_id : Option ℕ
  pub agreed_unit_price : Option ℕ
  pub agreed_total : Option ℕ
  pub agreed_quantity_litres : Option ℕ
  pub resolved_by : Option ℕ
  pub resolved_at : Option ℕ

pub record ExchangeProposal : Type 0 where
  pub id : ℕ
  pub offer_id : ℕ
  pub offer_raised_by_company_id : ℕ
  pub proposing_company_id : ℕ
  pub proposing_user_id : ℕ
  pub outcome : ProposalOutcome
  pub unit_price : Option ℕ
  pub responded_at : ℕ
  pub resolved_at : Option ℕ

pub record Exchange : Type 0 where
  pub offers : List ExchangeOffer
  pub proposals : List ExchangeProposal

pub data ExchangeError : Type 0 where
  exchange_delivery_in_past exchange_no_eligible_company offer_not_found : ExchangeError
  own_offer exchange_offer_not_open price_or_decline exchange_grade_not_sold : ExchangeError
  exchange_already_answered proposal_not_found exchange_already_resolved : ExchangeError

abbrev pub offer_key : ExchangeOffer → ℕ
offer_key o = o.id

abbrev pub proposal_key : ExchangeProposal → ℕ
proposal_key p = p.id

abbrev pub is_open : ExchangeOfferState → Bool
is_open open_state = true
is_open _ = false

abbrev pub is_awarded_state : ExchangeOfferState → Bool
is_awarded_state awarded_state = true
is_awarded_state _ = false

abbrev pub is_declined : ProposalOutcome → Bool
is_declined declined = true
is_declined _ = false

abbrev pub is_proposed : ProposalOutcome → Bool
is_proposed proposed = true
is_proposed _ = false

abbrev pub is_not_selected : ProposalOutcome → Bool
is_not_selected not_selected = true
is_not_selected _ = false

-- The party-set plugin's filter for the acting company.
unfoldable pub is_visible : ℕ → ExchangeOffer → Bool
is_visible acting o = any (λ c. c == acting) o.party_company_ids || o.open_to_market

-- `findById` of an offer, under that filter.
unfoldable pub find_offer : ℕ → ℕ → List ExchangeOffer → Option ExchangeOffer
unfolding is_visible
find_offer acting id offers = elim (find_by_id offer_key id offers) [
  | none ↦ none
  | some o ↦ if is_visible acting o then some o else none
]

-- `create`: the offer, and the companies whose administrators are told.
unfoldable pub create :
    List Company
    → ℕ
    → ℕ
    → FuelType
    → ℕ
    → ℕ
    → ℕ
    → ℕ
    → Exchange
    → Result ExchangeError (ExchangeOffer × List ℕ × Exchange)
create companies acting user fuel_type quantity_litres delivery_at id now x =
    let eligible : List ℕ = find_active_fuel_companies_selling_grade companies fuel_type acting in
    let offer : ExchangeOffer = record {
      id = id;
      party_company_ids = acting ∷ [];
      open_to_market = true;
      raised_by_company_id = acting;
      raised_by_user_id = user;
      fuel_type = fuel_type;
      quantity_litres = quantity_litres;
      delivery_at = delivery_at;
      state = open_state;
      awarded_proposal_id = none;
      awarded_company_id = none;
      agreed_unit_price = none;
      agreed_total = none;
      agreed_quantity_litres = none;
      resolved_by = none;
      resolved_at = none;
    } in
    throw_if (leb delivery_at now) exchange_delivery_in_past
    >> (throw_if (length eligible == 0) exchange_no_eligible_company
        >> ok (offer, eligible, record x { offers = x.offers ++ offer ∷ [] }))

-- `buildIncomingFilter`, for the acting company's own document: not its own offer, nor that of a
-- suspended company, and of a grade that it sells unless the offer names two parties.
unfoldable pub is_incoming : List Company → Company → ExchangeOffer → Bool
is_incoming companies acting o =
    not (any (λ c. c == o.raised_by_company_id) (find_suspended_fuel_company_ids companies))
    && (not (o.raised_by_company_id == acting.id)
        && (not o.open_to_market || sells o.fuel_type acting))

-- The unique index on `offerId` and `proposingCompanyId`.
unfoldable pub answers : ℕ → ℕ → ExchangeProposal → Bool
answers offer company p = (p.offer_id == offer) && (p.proposing_company_id == company)

-- The row of an answer: a price, or none for a decline.
unfoldable pub proposal_row : ExchangeOffer → ℕ → ℕ → Option ℕ → ℕ → ℕ → ExchangeProposal
proposal_row offer acting user price id now = record {
  id = id;
  offer_id = offer.id;
  offer_raised_by_company_id = offer.raised_by_company_id;
  proposing_company_id = acting;
  proposing_user_id = user;
  outcome = elim price [ none ↦ declined | some p ↦ proposed ];
  unit_price = price;
  responded_at = now;
  resolved_at = none;
}

abbrev both_or_neither : Bool → Bool → Bool
both_or_neither true b = b
both_or_neither false b = not b

-- The grade is sold by the company that names a price.
abbrev sells_grade : List Company → ℕ → Bool → FuelType → Bool
sells_grade companies acting decline f = decline || is_some (get_base_price companies acting f)

-- `propose`: the answer, and the company whose administrators are told.
unfoldable pub propose :
    List Company
    → ℕ
    → ℕ
    → ℕ
    → Option ℕ
    → Bool
    → ℕ
    → ℕ
    → Exchange
    → Result ExchangeError (ExchangeProposal × ℕ × Exchange)
unfolding proposal_row
propose companies offer_id acting user unit_price decline id now x = do
  offer ← or_throw (find_offer acting offer_id x.offers) offer_not_found
  throw_if (offer.raised_by_company_id == acting) own_offer
  throw_if (not (is_open offer.state)) exchange_offer_not_open
  throw_if (not (is_active companies offer.raised_by_company_id)) exchange_offer_not_open
  throw_if (both_or_neither decline (is_some unit_price)) price_or_decline
  throw_if (not (sells_grade companies acting decline offer.fuel_type)) exchange_grade_not_sold
  throw_if (any (answers offer.id acting) x.proposals) exchange_already_answered
  ok (
    proposal_row offer acting user unit_price id now,
    offer.raised_by_company_id,
    record x { proposals = x.proposals ++ proposal_row offer acting user unit_price id now ∷ [] },
  )
