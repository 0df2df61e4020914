-- ===== src/FuelExchange/Tests.antt =====
-- The exchange of src/modules/fuel-exchange/fuel-exchange.service.ts at concrete requests: company
-- 1 offers diesel to the market, company 2 has named a price and company 3 has declined.
use ciro_fuel_backend.Prelude.{
  arith, ℕ, ◌*◌, ◌≡◌, refl, true, ◌==◌, Option, none, some, List, [], ◌∷◌, Result, ok, err, is_err,
  find_by_id, All, count, get_or,
}
use ciro_fuel_backend.Money.{round_currency}
use ciro_fuel_backend.Order.{diesel, fuel_company_admin}
use ciro_fuel_backend.Companies.{Company, fuel, active}
use ciro_fuel_backend.FuelExchange.{
  ExchangeOffer, ExchangeProposal, Exchange, ExchangeError, open_state, proposed, declined,
  offer_key, answers, is_visible, find_offer,
}
use ciro_fuel_backend.FuelExchange.Resolve.{
  find_own_offer, award_offer, find_awardable, Awarded, award, award_to, withdraw,
}
use ciro_fuel_backend.FuelExchange.Detail.{Detail, ProposalShape, build_detail}
use ciro_fuel_backend.FuelExchange.Resolution.{IsSettled, award_settles, award_once}
use ciro_fuel_backend.FuelExchange.Disclosure.{
  IsOwn, HasCompany, answers_are_blind, award_reveals_declines,
}

abbrev seller : ℕ → Company
seller i = record {
  id = i;
  type = fuel;
  status = active;
  fuel_prices = record { fuel_type = diesel; base_price_per_liter = 21800 } ∷ [];
  pricing_config = none;
  commission_ceiling = none;
  parent_fuel_company_id = none;
  served_regions = [];
  delivery_rates = [];
}

abbrev sellers : List Company
sellers = seller 1 ∷ seller 2 ∷ seller 3 ∷ []

abbrev offer : ExchangeOffer
offer = record {
  id = 5;
  party_company_ids = 1 ∷ [];
  open_to_market = true;
  raised_by_company_id = 1;
  raised_by_user_id = 10;
  fuel_type = diesel;
  quantity_litres = 20000000;
  delivery_at = 900;
  state = open_state;
  awarded_proposal_id = none;
  awarded_company_id = none;
  agreed_unit_price = none;
  agreed_total = none;
  agreed_quantity_litres = none;
  resolved_by = none;
  resolved_at = none;
}

abbrev priced : ExchangeProposal
priced = record {
  id = 100;
  offer_id = 5;
  offer_raised_by_company_id = 1;
  proposing_company_id = 2;
  proposing_user_id = 20;
  outcome = proposed;
  unit_price = some 21000;
  responded_at = 50;
  resolved_at = none;
}

abbrev decline : ExchangeProposal
decline = record {
  id = 101;
  offer_id = 5;
  offer_raised_by_company_id = 1;
  proposing_company_id = 3;
  proposing_user_id = 30;
  outcome = declined;
  unit_price = none;
  responded_at = 60;
  resolved_at = none;
}

abbrev open_exchange : Exchange
open_exchange = record { offers = offer ∷ []; proposals = priced ∷ decline ∷ [] }

abbrev told : List ℕ
told = 2 ∷ 3 ∷ []

abbrev award_or : Result ExchangeError Awarded → Awarded
award_or (ok r) = r
award_or (err e) = record { offer = offer; winner = 0; told_closed = []; exchange = open_exchange }

-- Company 1 awards its offer to company 2.
abbrev result : Awarded
result = award_or (award 5 1 10 100 80 open_exchange)

award_settles_example :
    (p : ExchangeProposal) × (find_awardable 5 100 open_exchange.proposals ≡ ok p)
    × (result.offer.awarded_company_id ≡ some p.proposing_company_id)
    × (result.offer.agreed_unit_price ≡ p.unit_price)
    × (result.offer.agreed_total
        ≡ some (round_currency (get_or p.unit_price 0 * result.offer.quantity_litres) 100000))
    × (find_by_id offer_key 5 result.exchange.offers ≡ some result.offer)
    × All (IsSettled 5 100) result.exchange.proposals
unfolding award award_to find_own_offer find_offer is_visible find_awardable
award_settles_example = award_settles 5 1 10 100 80 open_exchange result refl

award_once_example :
    (is_err (award 5 1 11 101 90 result.exchange) ≡ true)
    × (is_err (withdraw 5 1 11 90 result.exchange) ≡ true)
unfolding award award_to find_own_offer find_offer is_visible find_awardable
award_once_example = award_once 5 1 10 100 80 open_exchange result 1 11 101 90 refl

award_reveals_declines_example :
    let d : Detail =
      build_detail result.offer (some 1) fuel_company_admin result.exchange.proposals in
    (d.decline_count ≡ some 0)
    × (d.proposal_count ≡ some (count (λ p. p.offer_id == 5) open_exchange.proposals))
    × (shapes : List ProposalShape) × (d.proposals ≡ some shapes)
    × All HasCompany shapes
unfolding award award_to find_own_offer find_offer is_visible find_awardable
award_reveals_declines_example = award_reveals_declines 5 1 10 100 80 open_exchange result refl

abbrev page : Detail
page = build_detail offer (some 1) fuel_company_admin open_exchange.proposals

abbrev shapes_or : Option (List ProposalShape) → List ProposalShape
shapes_or none = []
shapes_or (some s) = s

answers_are_blind_example :
    (build_detail result.offer (some 3) fuel_company_admin open_exchange.proposals
      ≡ build_detail result.offer (some 3) fuel_company_admin (decline ∷ []))
    × ((build_detail result.offer (some 3) fuel_company_admin open_exchange.proposals).agreed
        ≡ none)
    × ((build_detail result.offer
          (some 3)
          fuel_company_admin
          open_exchange.proposals).raiser_contact
        ≡ none)
    × ((build_detail result.offer (some 3) fuel_company_admin open_exchange.proposals).proposals
        ≡ none)
    × IsOwn 3
        (build_detail result.offer (some 3) fuel_company_admin open_exchange.proposals).my_proposal
unfolding award award_to award_offer find_own_offer find_offer is_visible find_awardable answers
answers_are_blind_example =
    answers_are_blind result.offer 3 fuel_company_admin open_exchange.proposals (decline ∷ [])
      (λ e. cc) (λ e. ground (arith, e)) (λ e. ground (arith, e)) refl
