-- ===== src/Orders/Vehicle.antt =====
-- src/modules/orders/orders.service.ts: the exchange of the truck and the tank before departure.
use ciro_fuel_backend.Prelude.{
  ℕ, ◌≤◌, ◌≡◌, refl, sym, ap, subst, ◌∙◌, true, not, some, any, ltb, find_by_id, find_by_id-key,
  find_by_id-replace_self, ok, err, Result, throw_if, throw_if-ok, >>=-eq-ok, ok-injective, arith,
}
use ciro_fuel_backend.Order.{Order, assigned_to_driver, same_status, same_status-eq, same_fuel}
use ciro_fuel_backend.OrderState.{order_id}
use ciro_fuel_backend.Dispatch.{
  Truck, Tank, Fleet, truck_id, tank_id, holds, is_free_truck, is_free_tank, hold_truck, hold_tank,
  free_truck, free_tank, release_one, book_truck, book_tank, release_driver_if_assigned,
  tank_capacity_exceeded, tank_grade_unsupported, DispatchError,
}
use ciro_fuel_backend.Dispatch.Crew.{IsBooked, book_truck-IsBooked, book_tank-IsBooked}
use ciro_fuel_backend.Orders.{already_departed, dispatch_failed, lift_dispatch, reassign_vehicle}

lift_dispatch-ok {ℓ} :
    {A : Type ℓ} (r : Result DispatchError A) {a : A} → lift_dispatch r ≡ ok a → r ≡ ok a
lift_dispatch-ok (ok u) h = ground (arith, h)
lift_dispatch-ok (err e) h = cc

-- An order `q`, as it is stored, whose vehicle has been exchanged: what it had is let go as by a
-- release, the truck and the tank were free after that and hold the order, the tank fits it, and the
-- drivers are the same.
pub record IsReassigned (o q : Order) (truck tank : ℕ) (fleet fleet' : Fleet) : Type 0 where
  pub before_departure : o.status ≡ assigned_to_driver
  pub with_truck :
      IsBooked Truck truck_id is_free_truck
        (hold_truck o.id)
        truck
        (release_driver_if_assigned o fleet).trucks
        fleet'.trucks
  pub with_tank :
      IsBooked Tank tank_id is_free_tank
        (hold_tank o.id)
        tank
        (release_driver_if_assigned o fleet).tanks
        fleet'.tanks
  pub carries : o.quantity_liters ≤ with_tank.taken.max_capacity_liters
  pub permits : any (λ f. same_fuel f o.fuel_type) with_tank.taken.fuel_types ≡ true
  pub same_drivers : fleet'.drivers ≡ fleet.drivers
  pub stored :
      find_by_id order_id o.id fleet'.orders
      ≡ some (record q { truck_id = some truck; tank_id = some tank })

-- An exchange that goes through is of an order that was read before its departure. Its old truck and
-- tank are let go as by a release, the new ones were in service and free after that, hold the
-- order, and the tank carries its quantity and may carry its grade. The drivers stay, and the
-- stored order changes in its truck and its tank alone.
pub reassign_vehicle-IsReassigned :
    (o q : Order) (truck tank : ℕ) (fleet fleet' : Fleet)
    → find_by_id order_id o.id fleet.orders ≡ some q
    → reassign_vehicle o truck tank fleet ≡ ok fleet'
    → IsReassigned o q truck tank fleet fleet'
unfolding reassign_vehicle release_driver_if_assigned hold_tank
reassign_vehicle-IsReassigned o q truck tank fleet fleet' stored h =
    let (u0, a0, h0) =
      >>=-eq-ok (throw_if (not (same_status o.status assigned_to_driver)) already_departed) _ h in
    let (ts, a, h1) =
      >>=-eq-ok
        (lift_dispatch (
          book_truck truck o.id (
            release_one truck_id (λ t. holds t.active_order_id o.id) free_truck o.truck_id
              fleet.trucks)))
        _ h0 in
    let ((t, ks), b, h2) =
      >>=-eq-ok
        (lift_dispatch (
          book_tank tank o.id (
            release_one tank_id (λ t. holds t.active_order_id o.id) free_tank o.tank_id
              fleet.tanks)))
        _ h1 in
    let (u1, c, h3) =
      >>=-eq-ok
        (throw_if (ltb t.max_capacity_liters o.quantity_liters)
          (dispatch_failed tank_capacity_exceeded))
        _ h2 in
    let (u2, d, h4) =
      >>=-eq-ok
        (throw_if (not (any (λ f. same_fuel f o.fuel_type) t.fuel_types))
          (dispatch_failed tank_grade_unsupported))
        _ h3 in
    let (k, same_tank) = book_tank-IsBooked tank o.id _ (lift_dispatch-ok _ b) in
    subst (IsReassigned o q truck tank fleet) (ok-injective _ fleet' h4) (record {
      before_departure =
          same_status-eq o.status assigned_to_driver
            (ground (arith, throw_if-ok _ already_departed a0));
      with_truck = book_truck-IsBooked truck o.id _ (lift_dispatch-ok _ a);
      with_tank = k;
      carries = ground (
        arith,
        throw_if-ok _ (dispatch_failed tank_capacity_exceeded) c,
        ap (λ (x : Tank). x.max_capacity_liters) same_tank,
      );
      permits =
          ap (λ (x : Tank). any (λ f. same_fuel f o.fuel_type) x.fuel_types) (sym same_tank)
          ∙ ground (arith, throw_if-ok _ (dispatch_failed tank_grade_unsupported) d);
      same_drivers = refl;
      stored = rw (stored) (
          find_by_id-replace_self order_id o.id fleet.orders q
            (record q { truck_id = some truck; tank_id = some tank }) stored
            (find_by_id-key order_id o.id fleet.orders q stored));
    })
