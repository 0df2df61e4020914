-- ===== src/Dispatch/Tests.antt =====
-- The booking of src/modules/dispatch/services/dispatch.service.ts at a concrete fleet: driver 5,
-- truck 6 and tank 8 take order 7.
use ciro_fuel_backend.Prelude.{
  ℕ, ◌≡◌, refl, true, false, none, some, List, [], ◌∷◌, ok, find_by_id, arith,
}
use ciro_fuel_backend.Order.{
  Order, diesel, deferred, routed_to_transport, assigned_to_driver, same_status, same_fuel, driver,
}
use ciro_fuel_backend.OrderState.{
  transitions, find_rule, transition, write_transition, apply_transition, set_fields, set_field,
  unset_fields, history_entry, order_id, TransitionActor,
}
use ciro_fuel_backend.Payments.{system_actor}
use ciro_fuel_backend.Dispatch.{
  complete_delivery, release_one, free_driver, free_truck, free_tank, Driver, Fleet, is_free_driver,
  is_free_truck, is_free_tank, hold_driver, hold_truck, hold_tank, classify_eligibility,
  book_driver, book_truck, book_tank, book_all, assignment, lacks_reason, assign_driver,
  release_driver_if_assigned,
}
use ciro_fuel_backend.Dispatch.Crew.{IsCrewed}
use ciro_fuel_backend.Dispatch.Booking.{IsAssigned, assign_driver_crews, release-assign}
use ciro_fuel_backend.Dispatch.Exclusive.{
  FleetRequest, assign, progress, complete, confirming_load, departing, arriving, IsConsistent,
  perform_fleet, perform_fleets, driver_on_one_delivery,
}

abbrev routed_order : ℕ → Order
routed_order i = record {
  id = i;
  fuel_company_id = 1;
  transport_company_id = none;
  client_id = 2;
  fuel_type = diesel;
  quantity_liters = 5000000;
  price_breakdown = none;
  status = routed_to_transport;
  estimated_price = 0;
  final_price = none;
  approved_by = none;
  payment_method = deferred;
  invoice_id = none;
  driver_id = none;
  truck_id = none;
  tank_id = none;
  payment_deadline = none;
  payment_timeout_count = 0;
  payment_confirmation_id = none;
  status_history = [];
  cancelled_by = none;
  cancellation_reason = none;
  rejected_by = none;
  rejection_reason = none;
  delivered_at = none;
  loading_confirmed_at = none;
  created_at = 0;
}

abbrev free_driver_5 : Driver
free_driver_5 = record {
  id = 5;
  is_active = true;
  is_available = true;
  is_online = true;
  active_order_id = none;
}

abbrev fleet : Fleet
fleet = record {
  drivers = free_driver_5 ∷ [];
  trucks = record { id = 6; is_active = true; active_order_id = none } ∷ [];
  tanks =
      record {
        id = 8;
        is_active = true;
        max_capacity_liters = 9000000;
        fuel_types = diesel ∷ [];
        active_order_id = none;
      }
      ∷ [];
  orders = routed_order 7 ∷ routed_order 9 ∷ [];
}

abbrev assigned : Order
assigned =
    apply_transition routed_to_transport assigned_to_driver system_actor (assignment 5 6 8) 100
      (routed_order 7)

abbrev crewed : Fleet
crewed = record {
  drivers = record free_driver_5 { is_available = false; active_order_id = some 7 } ∷ [];
  trucks = record { id = 6; is_active = true; active_order_id = some 7 } ∷ [];
  tanks =
      record {
        id = 8;
        is_active = true;
        max_capacity_liters = 9000000;
        fuel_types = diesel ∷ [];
        active_order_id = some 7;
      }
      ∷ [];
  orders = assigned ∷ routed_order 9 ∷ [];
}

goes_through : assign_driver (λ t. t) true 7 5 6 8 none 100 fleet ≡ ok crewed
unfolding assign_driver lacks_reason classify_eligibility book_all book_driver book_truck book_tank
    is_free_driver is_free_truck is_free_tank hold_driver hold_truck hold_tank transition
    write_transition find_rule transitions apply_transition set_fields set_field unset_fields
    history_entry same_status same_fuel
goes_through = refl

assign_driver_crews_example :
    (o : Order) × (p : Order) × (find_by_id order_id 7 fleet.orders ≡ some o)
    × IsCrewed 5 6 8 o fleet crewed
    × IsAssigned 5 6 8 o p
    × (find_by_id order_id 7 crewed.orders ≡ some p)
assign_driver_crews_example =
    assign_driver_crews (λ t. t) true 7 5 6 8 none 100 fleet crewed goes_through

release-assign_example :
    ((release_driver_if_assigned assigned crewed).drivers ≡ fleet.drivers)
    × ((release_driver_if_assigned assigned crewed).trucks ≡ fleet.trucks)
    × ((release_driver_if_assigned assigned crewed).tanks ≡ fleet.tanks)
unfolding apply_transition set_fields set_field unset_fields history_entry
release-assign_example =
    release-assign (λ t. t) true 7 5 6 8 none 100 fleet crewed assigned goes_through refl

abbrev at_the_wheel : TransitionActor
at_the_wheel = record { actor_id = 5; actor_role = driver }

-- The second assignment of the driver is refused, and the third one, after the delivery, is not.
abbrev requests : List FleetRequest
requests =
    assign true 7 5 6 8 none 100
    ∷ progress 7 confirming_load at_the_wheel false 200
    ∷ assign true 9 5 6 8 none 300
    ∷ progress 7 departing at_the_wheel false 310
    ∷ progress 7 arriving at_the_wheel false 320
    ∷ complete 7 at_the_wheel 400
    ∷ assign true 9 5 6 8 none 500
    ∷ []

all_idle : IsConsistent fleet
all_idle j = ground arith

abbrev assigned_later : Order
assigned_later =
    apply_transition routed_to_transport assigned_to_driver system_actor (assignment 5 6 8) 500
      (routed_order 9)

driver_on_one_delivery_example : ◌≡◌ {A = ℕ} 9 9
unfolding perform_fleets perform_fleet complete_delivery release_driver_if_assigned release_one
    free_driver free_truck free_tank assign_driver lacks_reason classify_eligibility book_all
    book_driver book_truck book_tank is_free_driver is_free_truck is_free_tank hold_driver
    hold_truck hold_tank transition write_transition find_rule transitions apply_transition
    set_fields set_field unset_fields history_entry same_status same_fuel
driver_on_one_delivery_example =
    driver_on_one_delivery (λ t. t) requests fleet 9 9 5 assigned_later assigned_later all_idle refl
      refl refl refl refl refl
