-- ===== src/FuelExchange/Detail.antt =====
-- src/modules/fuel-exchange/fuel-exchange.service.ts: `buildDetail`, what a viewer is shown.
use ciro_fuel_backend.Prelude.{
  ℕ, ◌*◌, Bool, true, false, not, ◌&&◌, ◌||◌, Option, none, some, List, map, filter, length, find?,
  is_id, ◌==◌, if◌then◌else◌,
}
use mathlib.Core.Option
use ciro_fuel_backend.Money.{round_currency}
use ciro_fuel_backend.Order.{UserRole, super_admin}
use ciro_fuel_backend.FuelExchange.{
  ExchangeOffer, ExchangeProposal, ProposalOutcome, is_declined, is_awarded_state, answers,
}

-- `toProposalShape`. `company` is the company whose name and contacts are attached.
pub record ProposalShape : Type 0 where
  pub id : ℕ
  pub outcome : ProposalOutcome
  pub responded_at : ℕ
  pub proposing_company_id : Option ℕ
  pub unit_price : Option ℕ
  pub total : Option ℕ
  pub company : Option ℕ

unfoldable pub to_proposal_shape : ExchangeProposal → ℕ → Bool → Option ℕ → ProposalShape
to_proposal_shape p quantity reveal_identity company = record {
  id = p.id;
  outcome = p.outcome;
  responded_at = p.responded_at;
  proposing_company_id = if reveal_identity then some p.proposing_company_id else none;
  unit_price = p.unit_price;
  total = Option.map (λ u. round_currency (u * quantity) 100000) p.unit_price;
  company = company;
}

-- The agreed figures of `toOfferSummary`, all shown or none.
pub record Agreed : Type 0 where
  pub awarded_company_id : Option ℕ
  pub agreed_unit_price : Option ℕ
  pub agreed_total : Option ℕ
  pub agreed_quantity_litres : Option ℕ

pub record Detail : Type 0 where
  pub agreed : Option Agreed
  pub proposals : Option (List ProposalShape)
  pub proposal_count : Option ℕ
  pub decline_count : Option ℕ
  pub my_proposal : Option ProposalShape
  pub raiser_contact : Option ℕ

abbrev pub is_super_admin : UserRole → Bool
is_super_admin super_admin = true
is_super_admin _ = false

unfoldable pub is_raiser : Option ℕ → UserRole → ExchangeOffer → Bool
is_raiser acting role o = not (is_super_admin role) && is_id acting o.raised_by_company_id

-- `actingCompanyId === String(offer.awardedCompanyId)`.
abbrev is_same_company : Option ℕ → Option ℕ → Bool
is_same_company none c = false
is_same_company (some a) c = is_id c a

unfoldable pub is_awarded_company : Option ℕ → UserRole → ExchangeOffer → Bool
is_awarded_company acting role o =
    (not (is_super_admin role) && not (is_raiser acting role o))
    && (is_awarded_state o.state && is_same_company acting o.awarded_company_id)

-- What the raiser and the operator see of one proposal.
unfoldable pub raiser_shape : ExchangeOffer → ExchangeProposal → ProposalShape
raiser_shape o p =
    if is_declined p.outcome
    then to_proposal_shape p o.quantity_litres false none
    else to_proposal_shape p o.quantity_litres true (some p.proposing_company_id)

unfoldable pub agreed_figures : ExchangeOffer → Agreed
agreed_figures o = record {
  awarded_company_id = o.awarded_company_id;
  agreed_unit_price = o.agreed_unit_price;
  agreed_total = o.agreed_total;
  agreed_quantity_litres = o.agreed_quantity_litres;
}

-- The acting company's own answer.
unfoldable pub own_proposal :
    Option ℕ → ExchangeOffer → List ExchangeProposal → Option ExchangeProposal
own_proposal none o proposals = none
own_proposal (some c) o proposals = find? (answers o.id c) proposals

unfoldable pub build_detail : ExchangeOffer → Option ℕ → UserRole → List ExchangeProposal → Detail
build_detail o acting role proposals =
    let on_offer : List ExchangeProposal = filter (λ p. p.offer_id == o.id) proposals in
    let own : Option ExchangeProposal = own_proposal acting o proposals in
    let sees_all : Bool = is_raiser acting role o || is_super_admin role in
    let awarded : Bool = is_awarded_company acting role o in
    if sees_all
    then record {
      agreed = some (agreed_figures o);
      proposals = some (map (raiser_shape o) on_offer);
      proposal_count = some (length (filter (λ p. not (is_declined p.outcome)) on_offer));
      decline_count = some (length (filter (λ p. is_declined p.outcome) on_offer));
      my_proposal = none;
      raiser_contact = none;
    }
    else record {
      agreed = if awarded then some (agreed_figures o) else none;
      proposals = none;
      proposal_count = none;
      decline_count = none;
      my_proposal = Option.map (λ p. to_proposal_shape p o.quantity_litres true none) own;
      raiser_contact = if awarded then some o.raised_by_company_id else none;
    }
