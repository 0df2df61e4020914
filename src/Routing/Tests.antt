-- ===== src/Routing/Tests.antt =====
-- The routing of src/modules/dispatch/services/routing.service.ts at a concrete order: transporter 3
-- hauls at SAR 2 a kilometre, SAR 50 at least, and the nearest warehouse is 100 km away.
use ciro_fuel_backend.Prelude.{
  ℕ, max, ◌*◌, ◌^◌, ◌≡◌, refl, none, some, [], ◌∷◌, ◌++◌, ok, err, find_by_id, get_or, Option,
}
use ciro_fuel_backend.Prelude.Int.{◌-ℤ◌}
use ciro_fuel_backend.Money.{round_currency}
use ciro_fuel_backend.Order.{
  Order, same_status, diesel, deferred, approved, routed_to_transport, pending_payment,
  fuel_company_admin, transport_company_admin,
}
use ciro_fuel_backend.OrderState.{
  transitions, find_rule, transition, write_transition, apply_transition, set_fields, set_field,
  unset_fields, history_entry, SetField,
}
use ciro_fuel_backend.Companies.{
  Company, company_id, transport, active, DeliveryRate, find_serving_transporters, serves,
}
use ciro_fuel_backend.PlatformAccount.{get_confirmed_balance}
use ciro_fuel_backend.Billing as Billing
use ciro_fuel_backend.Billing.{
  assert_under_ceiling, resolve_ceiling, get_net_commission_owed, accrue_commission,
  get_current_commission_term, current,
}
use ciro_fuel_backend.Invoices.{
  Books, Invoice, issued, issue_invoice, check_credit, check_ceiling, invoice_row, breakdown_of,
}
use ciro_fuel_backend.Routing.{
  Area, Warehouse, Haulage, Call, rate_for, haul_fee, fee_for_company, price_with_haul,
  final_price_of, settlement_fields, plain_options, await_client_settlement, route_to, route_order,
  resolve_transporter, not_a_candidate,
}
use ciro_fuel_backend.Routing.Fees.{IsAmong, IsMostSpecific, fee_for_company_charges}
use ciro_fuel_backend.Routing.Billed.{IsBilled, route_to_bills}

abbrev approved_order : Order
approved_order = record {
  id = 7;
  fuel_company_id = 1;
  transport_company_id = none;
  client_id = 2;
  fuel_type = diesel;
  quantity_liters = 5000000;
  price_breakdown = none;
  status = approved;
  estimated_price = 6000;
  final_price = none;
  approved_by = none;
  payment_method = deferred;
  invoice_id = none;
  driver_id = none;
  truck_id = none;
  tank_id = none;
  payment_deadline = none;
  payment_timeout_count = 0;
  payment_confirmation_id = none;
  status_history = [];
  cancelled_by = none;
  cancellation_reason = none;
  rejected_by = none;
  rejection_reason = none;
  delivered_at = none;
  loading_confirmed_at = none;
  created_at = 0;
}

abbrev transporter : Company
transporter = record {
  id = 3;
  type = transport;
  status = active;
  fuel_prices = [];
  pricing_config = none;
  commission_ceiling = none;
  parent_fuel_company_id = some 1;
  served_regions = 1 ∷ 2 ∷ [];
  delivery_rates =
      record { region_code = 1; governorate_code = none; price_per_km = 20000; min_price = 500000 }
      ∷ [];
}

abbrev riyadh : Area
riyadh = record { region_code = 1; governorate_code = some 4 }

abbrev near : Option Warehouse
near = some (record { distance = some 100000000 })

fee_for_company_charges_example :
    (company : Company) × (r : DeliveryRate) × (w : Warehouse) × (find_by_id company_id 3
        (transporter ∷ [])
      ≡ some company)
    × (near ≡ some w)
    × IsAmong r company.delivery_rates
    × IsMostSpecific company.delivery_rates riyadh r
    × (20000
        ≡ max
            (round_currency (r.min_price * 10 ^ 6) (10 ^ 8))
            (round_currency (get_or w.distance 0 * r.price_per_km) (10 ^ 8)))
unfolding fee_for_company rate_for haul_fee round_currency
fee_for_company_charges_example =
    fee_for_company_charges (transporter ∷ []) 3 riyadh near 20000 refl

abbrev rates : Billing.Rates
rates = record {
  terms = [];
  programmes = [];
  companies = transporter ∷ [];
  default_commission_ceiling = 5000;
}

abbrev haulage : Haulage
haulage = record { area = some riyadh; nearest = λ o. near }

abbrev call : Call
call = record {
  acting = some 1;
  actor = record { actor_id = 9; actor_role = fuel_company_admin };
  now = 100;
  deadline = 1900;
  invoice_id = 40;
  movement_id = 70;
}

abbrev books : Books
books = record { invoices = []; orders = approved_order ∷ []; ledger = [] }

abbrev routed : Order
routed =
    apply_transition approved routed_to_transport call.actor
      (plain_options (SetField.transport_company_id 3 ∷ [])) 100 approved_order

abbrev priced : Order
priced =
    apply_transition routed_to_transport pending_payment call.actor
      (plain_options (SetField.final_price 26000 ∷ [])) 100 routed

abbrev bill : Invoice
bill = record {
  id = 40;
  order_id = 7;
  fuel_company_id = 1;
  client_id = 2;
  transport_company_id = some 3;
  amount = 26000;
  price_breakdown = none;
  method = deferred;
  state = issued;
  payer_role = transport_company_admin;
  settled_at = none;
  payment_reference = none;
}

route_to_bills_example :
    (fee : ℕ) × (fee_for_company rates.companies 3 riyadh near ≡ ok fee)
    × IsBilled [] rates call 3 fee approved_order priced bill
    × (bill ∷ [] ≡ [] ++ bill ∷ [])
unfolding same_status route_to await_client_settlement fee_for_company rate_for haul_fee
    round_currency transitions find_rule transition write_transition apply_transition set_fields
    set_field unset_fields history_entry price_with_haul final_price_of settlement_fields
    issue_invoice check_credit check_ceiling assert_under_ceiling resolve_ceiling
    get_net_commission_owed get_confirmed_balance accrue_commission get_current_commission_term
    current invoice_row breakdown_of ◌-ℤ◌
route_to_bills_example =
    route_to_bills [] rates call haulage riyadh approved_order approved_order priced approved 3
      books
      (record {
        invoices = bill ∷ [];
        orders = record priced { invoice_id = some 40 } ∷ [];
        ledger = [];
      })
      bill refl refl

-- A transporter that does not serve the region is refused.
not_a_candidate_refused :
    route_order [] rates call haulage approved_order approved (some 8) books ≡ err not_a_candidate
unfolding route_order resolve_transporter find_serving_transporters serves
not_a_candidate_refused = refl
