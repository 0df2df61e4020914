-- ===== src/Dispatch.antt =====
-- src/modules/dispatch/services/dispatch.service.ts, and the releases of
-- src/modules/orders/orders.service.ts and src/modules/payments/queues/payment-timeout.processor.ts:
-- a driver, a truck and a tank are booked for an order together and let go together. The snapshots
-- of names, notifications and the escalation job are left out.
mod Resources
pub mod Crew
pub mod Booking
pub mod Crewed
pub mod Exclusive
mod Tests
unfoldable pub use Resources.*
use ciro_fuel_backend.Prelude.{
  ℕ, ◌+◌, ◌≡◌, Bool, true, false, not, ◌&&◌, ◌||◌, Option, none, some, List, [], ◌∷◌, any,
  find_by_id, find_one_and_update, is_some, ltb, Result, ok, err, ◌>>=◌, ◌>>◌, throw_if, or_throw,
  if◌then◌else◌,
}
use ciro_fuel_backend.Order.{
  Order, OrderStatus, routed_to_transport, assigned_to_driver, unloading, delivered, cancelled,
  pending_payment, approved, same_status, same_fuel, Text,
}
use ciro_fuel_backend.OrderState.{
  TransitionActor, TransitionOptions, SetField, UnsetField, unset_payment_deadline, unset_driver_id,
  TransitionError, Transitioned, transition, order_id,
}
use ciro_fuel_backend.Payments.{system_actor}

pub data DispatchError : Type 0 where
  order_not_found not_awaiting_assignment assignment_reason_required : DispatchError
  no_warehouse_for_grade driver_unavailable truck_unavailable tank_unavailable : DispatchError
  tank_capacity_exceeded tank_grade_unsupported order_already_assigned : DispatchError
  transition_failed : TransitionError → DispatchError

abbrev pub lift_transition : Result TransitionError Transitioned → Result DispatchError Transitioned
lift_transition (ok t) = ok t
lift_transition (err e) = err (transition_failed e)

-- The unique index on `activeOrderId`: another document that holds the order.
unfoldable pub book_driver : ℕ → ℕ → List Driver → Result DispatchError (List Driver)
book_driver id order drivers =
    elim (find_one_and_update driver_id id is_free_driver (hold_driver order) drivers) [
      | none ↦ err driver_unavailable
      | some booked ↦
          if any (λ d. holds d.active_order_id order) drivers
          then err order_already_assigned
          else ok booked.1
    ]

unfoldable pub book_truck : ℕ → ℕ → List Truck → Result DispatchError (List Truck)
book_truck id order trucks =
    elim (find_one_and_update truck_id id is_free_truck (hold_truck order) trucks) [
      | none ↦ err truck_unavailable
      | some booked ↦
          if any (λ t. holds t.active_order_id order) trucks
          then err order_already_assigned
          else ok booked.1
    ]

unfoldable pub book_tank : ℕ → ℕ → List Tank → Result DispatchError (Tank × List Tank)
book_tank id order tanks =
    elim (find_one_and_update tank_id id is_free_tank (hold_tank order) tanks) [
      | none ↦ err tank_unavailable
      | some booked ↦
          if any (λ t. holds t.active_order_id order) tanks
          then err order_already_assigned
          else ok booked
    ]

-- The three bookings of the transaction, with the checks on the tank.
unfoldable pub book_all : ℕ → ℕ → ℕ → Order → Fleet → Result DispatchError Fleet
book_all driver truck tank o fleet = do
  drivers ← book_driver driver o.id fleet.drivers
  trucks ← book_truck truck o.id fleet.trucks
  booked ← book_tank tank o.id fleet.tanks
  throw_if (ltb booked.0.max_capacity_liters o.quantity_liters) tank_capacity_exceeded
  throw_if (not (any (λ f. same_fuel f o.fuel_type) booked.0.fuel_types)) tank_grade_unsupported
  ok (record fleet { drivers = drivers; trucks = trucks; tanks = booked.1 })

abbrev pub assignment : ℕ → ℕ → ℕ → TransitionOptions
assignment driver truck tank = record {
  manual_override = false;
  override_reason = none;
  extra_set = SetField.driver_id driver ∷ SetField.truck_id truck ∷ SetField.tank_id tank ∷ [];
  extra_unset = [];
}

-- `reason?.trim()` is not empty. `trim` is the language's.
abbrev has_reason : (Text → Text) → Option Text → Bool
has_reason trim none = false
has_reason trim (some r) = elim (trim r) [ [] ↦ false | c ∷ cs ↦ true ]

-- An offline driver is only booked for a reason.
unfoldable pub lacks_reason : (Text → Text) → Option Text → Option Driver → Bool
lacks_reason trim reason none = false
lacks_reason trim reason (some d) =
    is_offline (classify_eligibility d) && not (has_reason trim reason)

-- `assignDriver`. `supplied` says whether a warehouse in service supplies the order's grade.
unfoldable pub assign_driver :
    (Text → Text) → Bool → ℕ → ℕ → ℕ → ℕ → Option Text → ℕ → Fleet → Result DispatchError Fleet
assign_driver trim supplied id driver truck tank reason now fleet = do
  o ← or_throw (find_by_id order_id id fleet.orders) order_not_found
  throw_if (not (same_status o.status routed_to_transport)) not_awaiting_assignment
  throw_if (lacks_reason trim reason (find_by_id driver_id driver fleet.drivers))
      assignment_reason_required
  throw_if (not supplied) no_warehouse_for_grade
  booked ← book_all driver truck tank o fleet
  moved ← lift_transition (
      transition o.id routed_to_transport assigned_to_driver system_actor
        (assignment driver truck tank) now booked.orders)
  ok (record booked { orders = moved.orders })

-- `releaseDriverIfAssigned`, of an order that has been read.
unfoldable pub release_driver_if_assigned : Order → Fleet → Fleet
release_driver_if_assigned o fleet = record fleet {
  drivers =
      release_one driver_id (λ d. holds d.active_order_id o.id) free_driver o.driver_id
        fleet.drivers;
  trucks =
      release_one truck_id (λ t. holds t.active_order_id o.id) free_truck o.truck_id fleet.trucks;
  tanks = release_one tank_id (λ t. holds t.active_order_id o.id) free_tank o.tank_id fleet.tanks;
}

-- `completeDelivery`.
unfoldable pub complete_delivery : Order → TransitionActor → ℕ → Fleet → Result DispatchError Fleet
complete_delivery o actor now fleet = do
  moved ← lift_transition (
      transition o.id unloading delivered actor
        (record {
          manual_override = false;
          override_reason = none;
          extra_set = [];
          extra_unset = [];
        })
        now fleet.orders)
  ok (record (release_driver_if_assigned o fleet) { orders = moved.orders })

-- The fleet's part of `forceComplete`.
unfoldable pub force_complete :
    Order → OrderStatus → TransitionActor → Text → ℕ → Fleet → Result DispatchError Fleet
force_complete o from actor reason now fleet = do
  moved ← lift_transition (
      transition o.id from delivered actor
        (record {
          manual_override = true;
          override_reason = some reason;
          extra_set = [];
          extra_unset = [];
        })
        now fleet.orders)
  ok (record (release_driver_if_assigned o fleet) { orders = moved.orders })

-- `cancelledBy` and, if there is one, `cancellationReason`.
abbrev pub cancellation : TransitionActor → Option Text → List SetField
cancellation actor none = SetField.cancelled_by actor.actor_id ∷ []
cancellation actor (some reason) =
    SetField.cancelled_by actor.actor_id ∷ SetField.cancellation_reason reason ∷ []

abbrev pub options_of : List SetField → List UnsetField → TransitionOptions
options_of fields names = record {
  manual_override = false;
  override_reason = none;
  extra_set = fields;
  extra_unset = names;
}

-- The fleet's part of `cancel`.
unfoldable pub cancel_booking :
    Order → OrderStatus → TransitionActor → Option Text → ℕ → Fleet → Result DispatchError Fleet
cancel_booking o from actor reason now fleet = do
  moved ← lift_transition (
      transition o.id from cancelled actor (options_of (cancellation actor reason) []) now
        fleet.orders)
  ok (record (release_driver_if_assigned o fleet) { orders = moved.orders })

-- `timeOut` of the job of a payment window, of an order that has been read. Only a driver is let go.
unfoldable pub time_out : Order → ℕ → Fleet → Result DispatchError Fleet
time_out o now fleet = if not (same_status o.status pending_payment) then ok fleet else do
  moved ← lift_transition (
      transition o.id pending_payment approved system_actor
        (options_of (SetField.payment_timeout_count (o.payment_timeout_count + 1) ∷ [])
          (unset_driver_id ∷ unset_payment_deadline ∷ []))
        now fleet.orders)
  ok (record fleet {
    drivers =
        release_one driver_id (λ d. holds d.active_order_id o.id) free_driver o.driver_id
          fleet.drivers;
    orders = moved.orders;
  })
