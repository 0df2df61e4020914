-- ===== src/Dispatch/Booking.antt =====
-- src/modules/dispatch/services/dispatch.service.ts: a booking that goes through, and its undoing by
-- the release.
use ciro_fuel_backend.Prelude.{
  ℕ, ◌≡◌, sym, ap, subst, ◌∙◌, Bool, true, not, ==_refl, Option, some, find_by_id, find_by_id-key,
  find_by_id-replace_self, replace, is_id, ok, err, throw_if, or_throw, or_throw-ok, arith,
  >>=-eq-ok, Result,
}
use ciro_fuel_backend.Order.{
  Order, routed_to_transport, assigned_to_driver, same_status, same_status-eq, Text,
}
use mathlib.Core.Option.{some-injective}
use ciro_fuel_backend.OrderState.{
  TransitionError, Transitioned, transition, order_id, apply_transition, set_fields, set_field,
  unset_fields,
}
use ciro_fuel_backend.OrderState.Step.{transition-applied}
use ciro_fuel_backend.Dispatch.Crew.{
  IsCrewed, book_all-IsCrewed, freed_driver, freed_truck, freed_tank, let_go,
}
use ciro_fuel_backend.Payments.{system_actor}
use ciro_fuel_backend.Dispatch.{
  Fleet, driver_id, truck_id, tank_id, is_free_driver, is_free_truck, is_free_tank, hold_driver,
  hold_truck, hold_tank, free_driver, free_truck, free_tank, holds, DispatchError, order_not_found,
  not_awaiting_assignment, assignment_reason_required, no_warehouse_for_grade, lift_transition,
  book_all, assignment, lacks_reason, assign_driver, release_driver_if_assigned,
}

-- What the assignment leaves in the order.
pub record IsAssigned (driver truck tank : ℕ) (o p : Order) : Type 0 where
  pub same_id : p.id ≡ o.id
  pub was_routed : o.status ≡ routed_to_transport
  pub is_assigned : p.status ≡ assigned_to_driver
  pub has_driver : p.driver_id ≡ some driver
  pub has_truck : p.truck_id ≡ some truck
  pub has_tank : p.tank_id ≡ some tank

lift_transition-ok :
    (r : Result TransitionError Transitioned) {t : Transitioned}
    → lift_transition r ≡ ok t
    → r ≡ ok t
lift_transition-ok (ok u) h = ground (arith, h)
lift_transition-ok (err e) h = cc

move-IsAssigned :
    (driver truck tank now : ℕ) (o : Order)
    → o.status ≡ routed_to_transport
    → IsAssigned driver truck tank o (
        apply_transition routed_to_transport assigned_to_driver system_actor
          (assignment driver truck tank)
          now
          o)
unfolding apply_transition set_fields set_field unset_fields
move-IsAssigned driver truck tank now o h = ground (arith, h)

-- What an assignment that goes through has written.
pub assign_driver-ok :
    (trim : Text → Text) (supplied : Bool) (id driver truck tank : ℕ) (reason : Option Text)
    (now : ℕ) (fleet fleet' : Fleet)
    → assign_driver trim supplied id driver truck tank reason now fleet ≡ ok fleet'
    → (o : Order) × (p : Order) × (find_by_id order_id id fleet.orders ≡ some o)
      × IsCrewed driver truck tank o fleet fleet'
      × IsAssigned driver truck tank o p
      × (fleet'.orders ≡ replace order_id id p fleet.orders)
unfolding assign_driver
assign_driver-ok trim supplied id driver truck tank reason now fleet fleet' h =
    let (o, a, h1) =
      >>=-eq-ok (or_throw (find_by_id order_id id fleet.orders) order_not_found) _ h in
    let (u1, b, h2) =
      >>=-eq-ok (throw_if (not (same_status o.status routed_to_transport)) not_awaiting_assignment)
        _ h1 in
    let (u2, c, h3) =
      >>=-eq-ok
        (throw_if (lacks_reason trim reason (find_by_id driver_id driver fleet.drivers))
          assignment_reason_required)
        _ h2 in
    let (u3, d, h4) = >>=-eq-ok (throw_if (not supplied) no_warehouse_for_grade) _ h3 in
    let (booked, e, h5) = >>=-eq-ok (book_all driver truck tank o fleet) _ h4 in
    let (t, f, h6) =
      >>=-eq-ok
        (lift_transition (
          transition o.id routed_to_transport assigned_to_driver system_actor
            (assignment driver truck tank) now booked.orders))
        _ h5 in
    let (crew, same_orders) = book_all-IsCrewed driver truck tank o fleet e in
    let (s, stored, changed, written) =
      transition-applied routed_to_transport assigned_to_driver system_actor
        (assignment driver truck tank) now o.id booked.orders {t = t} (lift_transition-ok _ f) in
    let found : find_by_id order_id id fleet.orders ≡ some o = or_throw-ok _ order_not_found a in
    let key : o.id ≡ id = find_by_id-key order_id id fleet.orders o found in
    let same_order : s ≡ o =
      some-injective s o (sym stored ∙ ap (find_by_id order_id o.id) same_orders ∙ rw key found) in
    let move : Order → Order =
      apply_transition routed_to_transport assigned_to_driver system_actor
        (assignment driver truck tank) now in
    let assigned : IsAssigned driver truck tank o t.order =
      subst (IsAssigned driver truck tank o) (sym (changed ∙ ap move same_order)) (
        move-IsAssigned driver truck tank now o
          (same_status-eq o.status routed_to_transport (allowed _ not_awaiting_assignment b))) in
    let made : record booked { orders = t.orders } ≡ fleet' = ground (arith, h6) in
    (
      o,
      t.order,
      found,
      subst (IsCrewed driver truck tank o fleet) made (record {
        with_driver = crew.with_driver;
        with_truck = crew.with_truck;
        with_tank = crew.with_tank;
        carries = crew.carries;
        permits = crew.permits;
      }),
      assigned,
      ap (λ (f : Fleet). f.orders) (sym made)
          ∙ written
          ∙ ap (λ k. replace order_id k t.order booked.orders) key
          ∙ ap (replace order_id id t.order) same_orders,
    )
  where
    allowed : (b : Bool) (e : DispatchError) {u : Unit {0}} → throw_if (not b) e ≡ ok u → b ≡ true
    allowed b e h = ground (arith, h)

-- An assignment that goes through is of a stored order that its transporter has. The driver, the
-- truck and the tank were active and free and now hold the order, the tank carries its quantity
-- and may carry its grade, and the order is stored as assigned to the three.
pub assign_driver_crews :
    (trim : Text → Text) (supplied : Bool) (id driver truck tank : ℕ) (reason : Option Text)
    (now : ℕ) (fleet fleet' : Fleet)
    → assign_driver trim supplied id driver truck tank reason now fleet ≡ ok fleet'
    → (o : Order) × (p : Order) × (find_by_id order_id id fleet.orders ≡ some o)
      × IsCrewed driver truck tank o fleet fleet'
      × IsAssigned driver truck tank o p
      × (find_by_id order_id id fleet'.orders ≡ some p)
assign_driver_crews trim supplied id driver truck tank reason now fleet fleet' h =
    let (o, p, found, crew, assigned, written) =
      assign_driver-ok trim supplied id driver truck tank reason now fleet fleet' h in
    (
      o,
      p,
      found,
      crew,
      assigned,
      ap (find_by_id order_id id) written
          ∙ find_by_id-replace_self order_id id fleet.orders o p found
              (assigned.same_id ∙ find_by_id-key order_id id fleet.orders o found),
    )

-- The release of an order, as it was stored by an assignment that went through, gives the drivers,
-- the trucks and the tanks from before the assignment.
pub release-assign :
    (trim : Text → Text) (supplied : Bool) (id driver truck tank : ℕ) (reason : Option Text)
    (now : ℕ) (fleet fleet' : Fleet) (p : Order)
    → assign_driver trim supplied id driver truck tank reason now fleet ≡ ok fleet'
    → find_by_id order_id id fleet'.orders ≡ some p
    → ((release_driver_if_assigned p fleet').drivers ≡ fleet.drivers)
      × ((release_driver_if_assigned p fleet').trucks ≡ fleet.trucks)
      × ((release_driver_if_assigned p fleet').tanks ≡ fleet.tanks)
unfolding release_driver_if_assigned hold_driver hold_truck hold_tank
release-assign trim supplied id driver truck tank reason now fleet fleet' p h stored =
    let (o, q, found, crew, assigned, kept) =
      assign_driver_crews trim supplied id driver truck tank reason now fleet fleet' h in
    let same_order : p ≡ q = some-injective p q (sym stored ∙ kept) in
    let key : p.id ≡ o.id = ap (λ (x : Order). x.id) same_order ∙ assigned.same_id in
    let own : (is_id (some o.id) p.id) ≡ true = rw key (==_refl o.id) in
    (
      rw (ap (λ (x : Order). x.driver_id) same_order ∙ assigned.has_driver) (
          let_go driver_id is_free_driver (λ d. holds d.active_order_id p.id) (hold_driver o.id)
            free_driver driver fleet.drivers fleet'.drivers crew.with_driver
            (find_by_id-key driver_id driver fleet.drivers crew.with_driver.taken
              crew.with_driver.found)
            own (freed_driver o.id crew.with_driver.taken crew.with_driver.was_free)),
      rw (ap (λ (x : Order). x.truck_id) same_order ∙ assigned.has_truck) (
          let_go truck_id is_free_truck (λ d. holds d.active_order_id p.id) (hold_truck o.id)
            free_truck truck fleet.trucks fleet'.trucks crew.with_truck
            (find_by_id-key truck_id truck fleet.trucks crew.with_truck.taken crew.with_truck.found)
            own (freed_truck o.id crew.with_truck.taken crew.with_truck.was_free)),
      rw (ap (λ (x : Order). x.tank_id) same_order ∙ assigned.has_tank) (
          let_go tank_id is_free_tank (λ d. holds d.active_order_id p.id) (hold_tank o.id) free_tank
            tank fleet.tanks fleet'.tanks crew.with_tank
            (find_by_id-key tank_id tank fleet.tanks crew.with_tank.taken crew.with_tank.found) own
            (freed_tank o.id crew.with_tank.taken crew.with_tank.was_free)),
    )
