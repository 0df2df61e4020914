-- ===== src/Orders.antt =====
-- src/modules/orders/orders.service.ts, and `reject` of orders.controller.ts: what a fuel company and
-- a client do with an order besides its routing and its delivery. `Platform` is what a cancellation
-- writes; its balance is that of the order's client with the company for the grade, which there may
-- not be. The jobs that are scheduled and dropped after the commit are left out.
pub mod Cancel
pub mod Create
pub mod Vehicle
mod Tests
use ciro_fuel_backend.Prelude.{
  ℕ, ◌+◌, ◌*◌, ◌≡◌, Bool, true, false, not, ◌||◌, Option, none, some, List, [], ◌∷◌, is_some,
  get_or, any, ltb, find_one_and_update, Result, ok, err, ◌>>=◌, ◌>>◌, throw_if, or_throw, ◌++◌,
  if◌then◌else◌,
}
use ciro_fuel_backend.Order.{
  Order, OrderStatus, FuelType, PaymentMethod, direct, Text, same_status, same_fuel,
  pending_approval, approved, rejected, pending_payment, routed_to_transport, assigned_to_driver,
  cancelled,
}
use ciro_fuel_backend.OrderState.{
  TransitionActor, TransitionOptions, TransitionError, Transitioned, SetField, UnsetField,
  unset_payment_deadline, transition, order_id,
}
use ciro_fuel_backend.PlatformAccount.{AccountMovement}
use ciro_fuel_backend.LitreBalances.{
  LitreBalance, LitreError, DrawdownResult, Stamp, drawdown, return_drawdown,
}
use ciro_fuel_backend.Invoices.{Invoice, InvoiceError, Books, void_invoice}
use ciro_fuel_backend.Money.{PriceBreakdown}
use ciro_fuel_backend.Companies.{Company}
use ciro_fuel_backend.Pricing.{PricingError, price_without_quote}
use ciro_fuel_backend.Routing.{is_direct}
use ciro_fuel_backend.Dispatch.{
  Fleet, DispatchError, truck_id, tank_id, holds, free_truck, free_tank, release_one, book_truck,
  book_tank, cancel_booking, options_of, tank_capacity_exceeded, tank_grade_unsupported,
}

pub data OrdersError : Type 0 where
  not_awaiting_confirmation already_departed : OrdersError
  transition_failed : TransitionError → OrdersError
  invoice_failed : InvoiceError → OrdersError
  dispatch_failed : DispatchError → OrdersError
  litres_failed : LitreError → OrdersError
  pricing_failed : PricingError → OrdersError
  client_without_company no_delivery_location : OrdersError

abbrev pub lift_transition : Result TransitionError Transitioned → Result OrdersError Transitioned
lift_transition (ok t) = ok t
lift_transition (err e) = err (transition_failed e)

abbrev pub lift_invoice : Result InvoiceError Books → Result OrdersError Books
lift_invoice (ok b) = ok b
lift_invoice (err e) = err (invoice_failed e)

abbrev pub lift_dispatch {ℓ} : {A : Type ℓ} → Result DispatchError A → Result OrdersError A
lift_dispatch (ok a) = ok a
lift_dispatch (err e) = err (dispatch_failed e)

abbrev pub lift_litres {ℓ} : {A : Type ℓ} → Result LitreError A → Result OrdersError A
lift_litres (ok a) = ok a
lift_litres (err e) = err (litres_failed e)

abbrev pub lift_pricing {ℓ} : {A : Type ℓ} → Result PricingError A → Result OrdersError A
lift_pricing (ok a) = ok a
lift_pricing (err e) = err (pricing_failed e)

-- `approve`, of an order that has been read; `override` is the admin's price.
unfoldable pub approve :
    Order → Option ℕ → TransitionActor → ℕ → List Order → Result OrdersError Transitioned
approve o override actor now orders = lift_transition (
    transition o.id pending_approval approved actor
      (options_of
        (SetField.final_price (get_or override o.estimated_price)
          ∷ SetField.approved_by actor.actor_id
          ∷ [])
        [])
      now orders)

-- `reject` of the controller.
unfoldable pub reject :
    ℕ → Text → TransitionActor → ℕ → List Order → Result OrdersError Transitioned
reject id reason actor now orders = lift_transition (
    transition id pending_approval rejected actor
      (options_of (SetField.rejected_by actor.actor_id ∷ SetField.rejection_reason reason ∷ []) [])
      now orders)

unfoldable pub settle_and_resume :
    Order → TransitionActor → ℕ → List Order → Result OrdersError Transitioned
settle_and_resume o actor now orders = lift_transition (
    transition o.id pending_payment routed_to_transport actor
      (options_of [] (unset_payment_deadline ∷ [])) now orders)

unfoldable pub accept_final_price :
    Order → TransitionActor → ℕ → List Order → Result OrdersError Transitioned
accept_final_price o actor now orders = do
  throw_if (not (same_status o.status pending_payment)) not_awaiting_confirmation
  throw_if (is_direct o.payment_method) not_awaiting_confirmation
  settle_and_resume o actor now orders

-- `reopenPaymentWindow` with `enterPendingPayment`; a window lasts `minutes`.
unfoldable pub reopen_payment_window :
    ℕ → Order → TransitionActor → ℕ → List Order → Result OrdersError Transitioned
reopen_payment_window minutes o actor now orders = lift_transition (
    transition o.id approved pending_payment actor
      (options_of (SetField.payment_deadline (now + minutes * 60000) ∷ []) []) now orders)

-- `reassignVehicle`, of an order that has been read. The last write has no condition but the `_id`.
unfoldable pub reassign_vehicle : Order → ℕ → ℕ → Fleet → Result OrdersError Fleet
reassign_vehicle o truck tank fleet = do
  throw_if (not (same_status o.status assigned_to_driver)) already_departed
  trucks ← lift_dispatch (
      book_truck truck o.id (
        release_one truck_id (λ t. holds t.active_order_id o.id) free_truck o.truck_id
          fleet.trucks))
  booked ← lift_dispatch (
      book_tank tank o.id
        (release_one tank_id (λ t. holds t.active_order_id o.id) free_tank o.tank_id fleet.tanks))
  throw_if (ltb booked.0.max_capacity_liters o.quantity_liters)
      (dispatch_failed tank_capacity_exceeded)
  throw_if (not (any (λ f. same_fuel f o.fuel_type) booked.0.fuel_types))
      (dispatch_failed tank_grade_unsupported)
  ok (record fleet {
    trucks = trucks;
    tanks = booked.1;
    orders =
        elim (find_one_and_update order_id o.id (λ p. true)
          (λ p. record p { truck_id = some truck; tank_id = some tank }) fleet.orders) [
            | none ↦ fleet.orders
            | some written ↦ written.1
          ];
  })

pub record Platform : Type 0 where
  pub fleet : Fleet
  pub invoices : List Invoice
  pub ledger : List AccountMovement
  pub balance : Option LitreBalance

-- The invoice has the parties of its order, which the caller has read, so that it is in scope too.
unfoldable pub void_if_issued : Option ℕ → ℕ → Order → Books → Result OrdersError Books
void_if_issued acting next o books =
    if is_some o.invoice_id
    then lift_invoice (void_invoice acting (λ i. true) next o.id books)
    else ok books

-- `cancel`, of an order that has been read. `next` is the first of the new identifiers of the
-- movements, `stamp` what the movement of litres takes.
unfoldable pub cancel :
    Option ℕ
    → ℕ
    → Stamp
    → Order
    → OrderStatus
    → TransitionActor
    → Option Text
    → ℕ
    → Platform
    → Result OrdersError Platform
cancel acting next stamp o from actor reason now p = do
  fleet ← lift_dispatch (cancel_booking o from actor reason now p.fleet)
  books ←
      void_if_issued acting next o
        (record { invoices = p.invoices; orders = fleet.orders; ledger = p.ledger })
  ok (record {
    fleet = record fleet { orders = books.orders };
    invoices = books.invoices;
    ledger = books.ledger;
    balance = return_drawdown o.id stamp p.balance;
  })

-- `createWithDrawdown`: the order and its drawdown in one transaction. `others` is what other requests
-- do to the balance during each attempt of the drawdown.
unfoldable pub create_with_drawdown :
    (ℕ → Option LitreBalance → Option LitreBalance)
    → Order
    → Stamp
    → Platform
    → Result OrdersError (DrawdownResult × Platform)
create_with_drawdown others o stamp p = do
  drew ← lift_litres (drawdown others o.id o.quantity_liters stamp p.balance)
  ok (
    drew.0,
    record p { fleet = record p.fleet { orders = p.fleet.orders ++ o ∷ [] }; balance = drew.1 },
  )

-- The order that a client places without a quote.
abbrev pub placed : ℕ → ℕ → ℕ → FuelType → ℕ → Option PaymentMethod → PriceBreakdown → ℕ → Order
placed id company client fuel quantity method price now = record {
  id = id;
  fuel_company_id = company;
  transport_company_id = none;
  client_id = client;
  fuel_type = fuel;
  quantity_liters = quantity;
  price_breakdown = some price;
  status = pending_approval;
  estimated_price = price.total;
  final_price = none;
  approved_by = none;
  payment_method = get_or method direct;
  invoice_id = none;
  driver_id = none;
  truck_id = none;
  tank_id = none;
  payment_deadline = none;
  payment_timeout_count = 0;
  payment_confirmation_id = none;
  status_history = [];
  cancelled_by = none;
  cancellation_reason = none;
  rejected_by = none;
  rejection_reason = none;
  delivered_at = none;
  loading_confirmed_at = none;
  created_at = now;
}

-- `create` without a quote. `located` says whether the request, the station that it names or the
-- client's own gives a place of delivery.
unfoldable pub create_unquoted :
    List Company
    → (ℕ → Option LitreBalance → Option LitreBalance)
    → ℕ
    → Option ℕ
    → ℕ
    → Bool
    → FuelType
    → ℕ
    → Option PaymentMethod
    → Stamp
    → Platform
    → Result OrdersError (DrawdownResult × Platform)
create_unquoted companies others id company client located fuel quantity method stamp p = do
  own ← or_throw company client_without_company
  throw_if (not located) no_delivery_location
  price ← lift_pricing (price_without_quote companies own fuel quantity)
  create_with_drawdown others (placed id own client fuel quantity method price stamp.now) stamp p
