-- ===== src/Routing.antt =====
-- src/modules/dispatch/services/routing.service.ts and
-- src/modules/orders/services/transport-pricing.service.ts: the transport company of an approved
-- order, what it charges, and the bill that the client gets. Notifications and the timeout job come
-- after the commit and are left out.
mod Haul
pub mod Fees
pub mod Billed
mod Tests
unfoldable pub use Haul.*
use ciro_fuel_backend.Prelude.{
  ℕ, ◌+◌, ◌*◌, ◌≡◌, Bool, true, false, ◌==◌, Option, none, some, List, [], ◌∷◌, any, find_by_id,
  get_or, Result, ok, err, ◌>>=◌, or_throw, if◌then◌else◌, ◌++◌,
}
use mathlib.Core.Option
use ciro_fuel_backend.Money.{PriceBreakdown, derive_price_breakdown, round_currency}
use ciro_fuel_backend.Order.{
  Order, OrderStatus, approved, awaiting_routing, routed_to_transport, pending_payment,
  PaymentMethod, direct, deferred, credit, same_status,
}
use ciro_fuel_backend.OrderState.{
  TransitionActor, TransitionOptions, SetField, TransitionError, Transitioned, transition, order_id,
}
use ciro_fuel_backend.Companies.{Company, find_serving_transporters}
use ciro_fuel_backend.Billing.{Rates}
use ciro_fuel_backend.Invoices.{Client, Invoice, Books, InvoiceError, issue_invoice}

pub data RoutingError : Type 0 where
  no_station_region not_a_candidate : RoutingError
  haul_failed : HaulError → RoutingError
  transition_failed : TransitionError → RoutingError
  invoice_failed : InvoiceError → RoutingError

-- The transporter that is chosen, or the only one there is.
unfoldable pub resolve_transporter : Option ℕ → List Company → Result RoutingError (Option ℕ)
resolve_transporter none [] = ok none
resolve_transporter none (c ∷ []) = ok (some c.id)
resolve_transporter none (c ∷ d ∷ cs) = ok none
resolve_transporter (some id) candidates =
    if any (λ c. c.id == id) candidates then ok (some id) else err not_a_candidate

abbrev pub is_direct : PaymentMethod → Bool
is_direct direct = true
is_direct deferred = false
is_direct credit = false

-- The breakdown that the order was quoted at, with the haul in it.
unfoldable pub price_with_haul : Order → ℕ → Option PriceBreakdown
price_with_haul o fee = elim o.price_breakdown [
  | none ↦ none
  | some quoted ↦ some (
      derive_price_breakdown quoted.unit_price o.quantity_liters (some (100 * fee))
        quoted.service_fee_percent quoted.tax_rate_percent)
]

unfoldable pub final_price_of : Order → ℕ → ℕ
final_price_of o fee = elim (price_with_haul o fee) [
  | none ↦ round_currency (get_or o.final_price o.estimated_price + fee) 1
  | some priced ↦ priced.total
]

-- `extraSet` of the transition to PENDING_PAYMENT. `deadline` is the time until which a direct order
-- can be paid.
unfoldable pub settlement_fields : Order → ℕ → ℕ → List SetField
settlement_fields o fee deadline =
    let due : List SetField =
      if is_direct o.payment_method then SetField.payment_deadline deadline ∷ [] else [] in
    elim (price_with_haul o fee) [
      | none ↦ SetField.final_price (final_price_of o fee) ∷ due
      | some priced ↦
          SetField.price_breakdown priced ∷ SetField.final_price (final_price_of o fee) ∷ due
    ]

abbrev pub plain_options : List SetField → TransitionOptions
plain_options fields = record {
  manual_override = false;
  override_reason = none;
  extra_set = fields;
  extra_unset = [];
}

abbrev pub lift_transition : Result TransitionError Transitioned → Result RoutingError Transitioned
lift_transition (ok t) = ok t
lift_transition (err e) = err (transition_failed e)

abbrev pub lift_invoice :
    Result InvoiceError (Invoice × Books) → Result RoutingError (Invoice × Books)
lift_invoice (ok r) = ok r
lift_invoice (err e) = err (invoice_failed e)

abbrev pub lift_haul : Result HaulError ℕ → Result RoutingError ℕ
lift_haul (ok fee) = ok fee
lift_haul (err e) = err (haul_failed e)

-- The client's area, and what `findNearestSupplying` finds for an order.
pub record Haulage : Type 0 where
  pub area : Option Area
  pub nearest : Order → Option Warehouse

-- Who asks and when: the tenant and the user, the time, the deadline of a payment from now, and the
-- new identifiers of the invoice and of the movement of its commission.
pub record Call : Type 0 where
  pub acting : Option ℕ
  pub actor : TransitionActor
  pub now : ℕ
  pub deadline : ℕ
  pub invoice_id : ℕ
  pub movement_id : ℕ

module _ (clients : List Client) (rates : Rates) (call : Call) where
  -- `awaitClientSettlement`, of the order that has just been routed.
  unfoldable pub await_client_settlement :
      Order → ℕ → Books → Result RoutingError (Order × Invoice × Books)
  await_client_settlement o fee books = do
    awaiting ← lift_transition (
        transition o.id routed_to_transport pending_payment call.actor
          (plain_options (settlement_fields o fee call.deadline)) call.now books.orders)
    issued ← lift_invoice (
        issue_invoice call.acting clients rates call.invoice_id call.movement_id awaiting.order
          (record books { orders = awaiting.orders }))
    ok (awaiting.order, issued.0, issued.1)

  -- The transaction of `routeOrder`, once the transporter is known.
  unfoldable pub route_to :
      Haulage
      → Area
      → Order
      → OrderStatus
      → ℕ
      → Books
      → Result RoutingError (Order × Invoice × Books)
  route_to haulage area o from transporter books = do
    fee ← lift_haul (fee_for_company rates.companies transporter area (haulage.nearest o))
    routed ← lift_transition (
        transition o.id from routed_to_transport call.actor
          (plain_options (SetField.transport_company_id transporter ∷ [])) call.now books.orders)
    await_client_settlement routed.order fee (record books { orders = routed.orders })

  -- The holding state of an order that no transporter, or more than one, could take.
  unfoldable pub hold_order : Order → OrderStatus → Books → Result RoutingError (Order × Books)
  hold_order o from books =
      if same_status from awaiting_routing
      then ok (o, books)
      else (lift_transition (
            transition o.id from awaiting_routing call.actor (plain_options []) call.now
              books.orders)
          >>= λ held. ok (held.order, record books { orders = held.orders }))

  -- The end of `routeOrder`: the stored order, with the candidates that it was not settled among.
  unfoldable pub finish :
      Result RoutingError (Order × Invoice × Books)
      → Result RoutingError (Order × List Company × Books)
  finish routed = do r ← routed; ok (get_or (find_by_id order_id r.0.id r.2.orders) r.0, [], r.2)

  unfoldable pub route_order :
      Haulage
      → Order
      → OrderStatus
      → Option ℕ
      → Books
      → Result RoutingError (Order × List Company × Books)
  route_order haulage o from chosen books = do
    area ← or_throw haulage.area no_station_region
    resolved ←
        resolve_transporter chosen
          (find_serving_transporters rates.companies o.fuel_company_id area.region_code)
    elim resolved [
      | some transporter ↦ finish (route_to haulage area o from transporter books)
      | none ↦ hold_order o from books >>= λ held. ok (
        held.0,
        find_serving_transporters rates.companies o.fuel_company_id area.region_code,
        held.1,
      )
    ]
