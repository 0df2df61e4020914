-- ===== src/Dispatch/Exclusive.antt =====
-- src/modules/dispatch/services/dispatch.service.ts and src/modules/orders/orders.service.ts: no
-- driver is on two deliveries, over any assignments, progress and endings of orders.
use ciro_fuel_backend.Prelude.{
  ℕ, ◌+◌, subst, >>=-eq-ok, ok-injective, ◌>>=◌, ◌≡◌, ◌≢◌, refl, sym, ap, ◌∙◌, Bool, true, false,
  not, ◌&&◌, ◌||◌, ==_refl, Option, none, some, List, [], ◌∷◌, find_by_id, find_by_id-key,
  find_by_id-replace_self, Result, ok, err, arith, Bool-cases, Option-cases, Result-cases, inl, inr,
}
use mathlib.Core.Option.{some-injective}
use ciro_fuel_backend.Order.{
  Order, OrderStatus, Text, pending_approval, approved, rejected, awaiting_routing,
  routed_to_transport, pending_payment, assigned_to_driver, loading, in_transit, unloading,
  delivered, cancelled, same_status,
}
use ciro_fuel_backend.Payments.{system_actor}
use ciro_fuel_backend.OrderState.{
  TransitionActor, TransitionOptions, TransitionError, Transitioned, SetField,
  unset_payment_deadline, unset_driver_id, transition, order_id, apply_transition, set_fields,
  unset_fields,
}
use ciro_fuel_backend.OrderState.Step.{transition-applied, transition-ok}
use ciro_fuel_backend.Dispatch.{
  Driver, Fleet, driver_id, is_free_driver, hold_driver, free_driver, holds, assign_driver,
  release_driver_if_assigned, release_one, complete_delivery, force_complete, cancel_booking,
  time_out, lift_transition, options_of, cancellation, DispatchError,
}
use ciro_fuel_backend.Dispatch.Crewed.{
  is_engaged, is_driven, is_crewed, one_order, crewed-replace, write_one, release_cases,
}
use ciro_fuel_backend.Dispatch.Booking.{assign_driver-ok}

abbrev pub IsConsistent : Fleet → Type 0
IsConsistent fleet = (id : ℕ) → is_crewed fleet.drivers (find_by_id order_id id fleet.orders) ≡ true

-- The moves of an order that are one call of `transition` each, without a driver being booked or let
-- go: from its approval to its acceptance, and those of a delivery under way.
pub data Move : Type 0 where
  approving rejecting parking routing routing_parked : Move
  awaiting_payment resuming reopening confirming_load departing arriving : Move

abbrev pub from_of : Move → OrderStatus
from_of approving = pending_approval
from_of rejecting = pending_approval
from_of parking = approved
from_of routing = approved
from_of routing_parked = awaiting_routing
from_of awaiting_payment = routed_to_transport
from_of resuming = pending_payment
from_of reopening = approved
from_of confirming_load = assigned_to_driver
from_of departing = loading
from_of arriving = in_transit

abbrev pub to_of : Move → OrderStatus
to_of approving = approved
to_of rejecting = rejected
to_of parking = awaiting_routing
to_of routing = routed_to_transport
to_of routing_parked = routed_to_transport
to_of awaiting_payment = pending_payment
to_of resuming = routed_to_transport
to_of reopening = pending_payment
to_of confirming_load = loading
to_of departing = in_transit
to_of arriving = unloading

-- A request that moves an order, books its driver or lets it go. Those that end a delivery read the
-- order first.
pub data FleetRequest : Type 0 where
  assign : Bool → ℕ → ℕ → ℕ → ℕ → Option Text → ℕ → FleetRequest
  progress : ℕ → Move → TransitionActor → Bool → ℕ → FleetRequest
  complete : ℕ → TransitionActor → ℕ → FleetRequest
  force : ℕ → OrderStatus → TransitionActor → Text → ℕ → FleetRequest
  call_off : ℕ → OrderStatus → TransitionActor → Option Text → ℕ → FleetRequest
  run_out : ℕ → ℕ → FleetRequest

abbrev bare_options : Bool → TransitionOptions
bare_options manual = record {
  manual_override = manual;
  override_reason = none;
  extra_set = [];
  extra_unset = [];
}

abbrev fleet_or {ℓ} : {E : Type ℓ} → Result E Fleet → Fleet → Fleet
fleet_or (ok fleet') fleet = fleet'
fleet_or (err e) fleet = fleet

abbrev with_orders {ℓ} : {E : Type ℓ} → Result E Transitioned → Fleet → Fleet
with_orders (ok t) fleet = record fleet { orders = t.orders }
with_orders (err e) fleet = fleet

abbrev on_order : ℕ → (Order → Fleet → Result DispatchError Fleet) → Fleet → Fleet
on_order id f fleet = elim (find_by_id order_id id fleet.orders) [
  | none ↦ fleet
  | some o ↦ fleet_or (f o fleet) fleet
]

-- A request that throws leaves the fleet as it was.
unfoldable pub perform_fleet : (Text → Text) → FleetRequest → Fleet → Fleet
perform_fleet trim (assign supplied id driver truck tank reason now) fleet =
    fleet_or (assign_driver trim supplied id driver truck tank reason now fleet) fleet
perform_fleet trim (progress id move actor manual now) fleet =
    with_orders
      (transition id (from_of move) (to_of move) actor (bare_options manual) now fleet.orders) fleet
perform_fleet trim (complete id actor now) fleet =
    on_order id (λ o. complete_delivery o actor now) fleet
perform_fleet trim (force id from actor reason now) fleet =
    on_order id (λ o. force_complete o from actor reason now) fleet
perform_fleet trim (call_off id from actor reason now) fleet =
    on_order id (λ o. cancel_booking o from actor reason now) fleet
perform_fleet trim (run_out id now) fleet = on_order id (λ o. time_out o now) fleet

unfoldable pub perform_fleets : (Text → Text) → List FleetRequest → Fleet → Fleet
perform_fleets trim [] fleet = fleet
perform_fleets trim (r ∷ rs) fleet = perform_fleets trim rs (perform_fleet trim r fleet)

assign-IsConsistent :
    (trim : Text → Text) (supplied : Bool) (id driver truck tank : ℕ) (reason : Option Text)
    (now : ℕ) (fleet fleet' : Fleet)
    → IsConsistent fleet
    → assign_driver trim supplied id driver truck tank reason now fleet ≡ ok fleet'
    → IsConsistent fleet'
unfolding is_free_driver hold_driver
assign-IsConsistent trim supplied id driver truck tank reason now fleet fleet' c h =
    let (o, p, found, crew, assigned, written) =
      assign_driver-ok trim supplied id driver truck tank reason now fleet fleet' h in
    let taken : Driver = crew.with_driver.taken in
    let held : Driver = hold_driver o.id taken in
    let named : taken.id ≡ driver =
      find_by_id-key driver_id driver fleet.drivers taken crew.with_driver.found in
    let idle : taken.active_order_id ≡ none = ground (arith, crew.with_driver.was_free) in
    let key : p.id ≡ id = assigned.same_id ∙ find_by_id-key order_id id fleet.orders o found in
    let stored : find_by_id driver_id driver fleet'.drivers ≡ some held =
      ap (find_by_id driver_id driver) crew.with_driver.written
      ∙ find_by_id-replace_self driver_id driver fleet.drivers taken held crew.with_driver.found
          named in
    λ j.
      ap (λ l. is_crewed fleet'.drivers (find_by_id order_id j l)) written
      ∙ write_one fleet'.drivers fleet.orders id o p found key
          (rw (assigned.is_assigned, assigned.has_driver, stored, assigned.same_id) (==_refl o.id))
          (λ i apart.
            ap (λ l. is_crewed l (find_by_id order_id i fleet.orders)) crew.with_driver.written
            ∙ crewed-replace fleet.drivers driver (find_by_id order_id i fleet.orders) taken held
                crew.with_driver.found named (λ x e. rw idle refl) (c i))
          j

-- Whether a move neither starts a delivery nor ends one.
abbrev is_within : OrderStatus → OrderStatus → Bool
is_within from to = (is_engaged from && is_engaged to) || not (is_engaged from || is_engaged to)

moves_within : (move : Move) → is_within (from_of move) (to_of move) ≡ true
moves_within approving = refl
moves_within rejecting = refl
moves_within parking = refl
moves_within routing = refl
moves_within routing_parked = refl
moves_within awaiting_payment = refl
moves_within resuming = refl
moves_within reopening = refl
moves_within confirming_load = refl
moves_within departing = refl
moves_within arriving = refl

bare_move :
    (from to : OrderStatus) (actor : TransitionActor) (manual : Bool) (now : ℕ) (o : Order)
    → ((apply_transition from to actor (bare_options manual) now o).id ≡ o.id)
      × ((apply_transition from to actor (bare_options manual) now o).driver_id ≡ o.driver_id)
      × ((apply_transition from to actor (bare_options manual) now o).status ≡ to)
unfolding apply_transition set_fields unset_fields
bare_move from to actor manual now o = (refl, refl, refl)

progress-IsConsistent :
    (id : ℕ) (from to : OrderStatus) (actor : TransitionActor) (manual : Bool) (now : ℕ)
    (fleet : Fleet) (t : Transitioned)
    → IsConsistent fleet
    → is_within from to ≡ true
    → transition id from to actor (bare_options manual) now fleet.orders ≡ ok t
    → IsConsistent (record fleet { orders = t.orders })
progress-IsConsistent id from to actor manual now fleet t c within h =
    let (o, l, found, moved, written, sent) =
      transition-ok from to actor (bare_options manual) now id fleet.orders {t = t} h in
    let (q, again, changed, written2) =
      transition-applied from to actor (bare_options manual) now id fleet.orders {t = t} h in
    let same_order : q ≡ o = some-injective q o (sym again ∙ found) in
    let driver_kept : t.order.driver_id ≡ o.driver_id =
      ap (λ (x : Order). x.driver_id) changed
      ∙ (bare_move from to actor manual now q).1
      ∙ ap (λ (x : Order). x.driver_id) same_order in
    λ j.
      ap (λ x. is_crewed fleet.drivers (find_by_id order_id j x)) written
      ∙ write_one fleet.drivers fleet.orders id o t.order found
          (moved.same_id ∙ find_by_id-key order_id id fleet.orders o found)
          (rw (moved.is_to, driver_kept, moved.same_id)
            (kept (is_engaged from) (is_engaged to) (is_driven fleet.drivers o.driver_id o.id)
              within (rw moved.was_from at (ap (is_crewed fleet.drivers) (sym found) ∙ c id))))
          (λ i apart. c i) j
  where
    kept :
        (a b d : Bool)
        → ((a && b) || not (a || b)) ≡ true
        → (not a || d) ≡ true
        → (not b || d) ≡ true
    kept a b d w h = ground (arith, w, h)

-- The end of a delivery, or of an order before it, by whichever call: its transition, and the driver
-- that it names let go.
ended-IsConsistent :
    (from to : OrderStatus) (actor : TransitionActor) (options : TransitionOptions) (now : ℕ)
    (fleet fleet' : Fleet) (o : Order) (t : Transitioned)
    → IsConsistent fleet
    → find_by_id order_id o.id fleet.orders ≡ some o
    → is_engaged to ≡ false
    → transition o.id from to actor options now fleet.orders ≡ ok t
    → fleet'.orders ≡ t.orders
    → fleet'.drivers
      ≡ release_one driver_id
          (λ d. holds d.active_order_id o.id)
          free_driver
          o.driver_id
          fleet.drivers
    → IsConsistent fleet'
unfolding free_driver
ended-IsConsistent from to actor options now fleet fleet' o t c found over h orders drivers =
    let (q, l, again, moved, written, sent) =
      transition-ok from to actor options now o.id fleet.orders {t = t} h in
    let key : t.order.id ≡ o.id =
      moved.same_id ∙ find_by_id-key order_id o.id fleet.orders q again in
    let idle : is_engaged t.order.status ≡ false = ap is_engaged moved.is_to ∙ over in
    λ j.
      ap (λ x. is_crewed fleet'.drivers (find_by_id order_id j x)) (orders ∙ written)
      ∙ write_one fleet'.drivers fleet.orders o.id o t.order found key (rw idle refl)
          (λ i apart. elim (release_cases fleet.drivers o) [
            | inl same_drivers ↦
                ap (λ x. is_crewed x (find_by_id order_id i fleet.orders)) (drivers ∙ same_drivers)
                ∙ c i
            | inr (d, k, stored, held, replaced) ↦
                ap (λ x. is_crewed x (find_by_id order_id i fleet.orders)) (drivers ∙ replaced)
                ∙ crewed-replace fleet.drivers k (find_by_id order_id i fleet.orders) d
                    (free_driver d) stored (find_by_id-key driver_id k fleet.drivers d stored)
                    (λ x e.
                      not_held d.active_order_id o.id x.id held
                        (λ s. apart (sym (find_by_id-key order_id i fleet.orders x e) ∙ sym s)))
                    (c i)
          ])
          j
  where
    not_held : (a : Option ℕ) (n m : ℕ) → holds a n ≡ true → n ≢ m → holds a m ≡ false
    not_held none n m h e = cc
    not_held (some k) n m h e = ground (arith, h, e)

lift_transition-ok :
    (r : Result TransitionError Transitioned) {t : Transitioned}
    → lift_transition r ≡ ok t
    → r ≡ ok t
lift_transition-ok (ok u) h = ground (arith, h)
lift_transition-ok (err e) h = cc

-- A transition with the release of all that the order had.
released-IsConsistent :
    (from to : OrderStatus) (actor : TransitionActor) (options : TransitionOptions) (now : ℕ)
    (fleet fleet' : Fleet) (o : Order)
    → IsConsistent fleet
    → find_by_id order_id o.id fleet.orders ≡ some o
    → is_engaged to ≡ false
    → (lift_transition (transition o.id from to actor options now fleet.orders) >>= λ moved.
        ok (record (release_driver_if_assigned o fleet) { orders = moved.orders }))
      ≡ ok fleet'
    → IsConsistent fleet'
unfolding release_driver_if_assigned
released-IsConsistent from to actor options now fleet fleet' o c found over h =
    let (t, e, g) =
      >>=-eq-ok (lift_transition (transition o.id from to actor options now fleet.orders)) _ h in
    let made : fleet' ≡ record (release_driver_if_assigned o fleet) { orders = t.orders } =
      sym (ok-injective _ fleet' g) in
    ended-IsConsistent from to actor options now fleet fleet' o t c found over
      (lift_transition-ok _ e) (ap (λ (x : Fleet). x.orders) made)
      (ap (λ (x : Fleet). x.drivers) made)

time_out-IsConsistent :
    (o : Order) (now : ℕ) (fleet fleet' : Fleet)
    → IsConsistent fleet
    → find_by_id order_id o.id fleet.orders ≡ some o
    → time_out o now fleet ≡ ok fleet'
    → IsConsistent fleet'
unfolding time_out
time_out-IsConsistent o now fleet fleet' c found h =
    elim (Bool-cases (same_status o.status pending_payment)) [
      | inr n ↦ subst IsConsistent (ok-injective fleet fleet' (rw (time_out, n) at h)) c
      | inl p ↦
          let (t, e, g) =
            >>=-eq-ok
              (lift_transition (
                transition o.id pending_payment approved system_actor
                  (options_of (SetField.payment_timeout_count (o.payment_timeout_count + 1) ∷ [])
                    (unset_driver_id ∷ unset_payment_deadline ∷ []))
                  now fleet.orders))
              _ (rw (time_out, p) at h) in
          ended-IsConsistent pending_payment approved system_actor _ now fleet fleet' o t c found
            refl (lift_transition-ok _ e)
            (ap (λ (x : Fleet). x.orders) (sym (ok-injective _ fleet' g)))
            (ap (λ (x : Fleet). x.drivers) (sym (ok-injective _ fleet' g)))
    ]

on_order-IsConsistent :
    (id : ℕ) (f : Order → Fleet → Result DispatchError Fleet) (fleet : Fleet)
    → IsConsistent fleet
    → ((o : Order) (fleet' : Fleet)
        → find_by_id order_id o.id fleet.orders ≡ some o
        → f o fleet ≡ ok fleet'
        → IsConsistent fleet')
    → IsConsistent (on_order id f fleet)
on_order-IsConsistent id f fleet c kept =
    elim (Option-cases (find_by_id order_id id fleet.orders)) [
      | inl n ↦ rw (on_order, n) c
      | inr (o, n) ↦
          let own : find_by_id order_id o.id fleet.orders ≡ some o =
            ap (λ i. find_by_id order_id i fleet.orders)
              (find_by_id-key order_id id fleet.orders o n)
            ∙ n in
          elim (Result-cases (f o fleet)) [
            | inl (x, e) ↦ rw (on_order, n, e) c
            | inr (fleet', e) ↦ rw (on_order, n, e) (kept o fleet' own e)
          ]
    ]

perform_fleet-IsConsistent :
    (trim : Text → Text) (r : FleetRequest) (fleet : Fleet)
    → IsConsistent fleet
    → IsConsistent (perform_fleet trim r fleet)
unfolding perform_fleet complete_delivery force_complete cancel_booking
perform_fleet-IsConsistent trim (assign supplied id driver truck tank reason now) fleet c =
    elim (Result-cases (assign_driver trim supplied id driver truck tank reason now fleet)) [
      | inl (x, e) ↦ rw e c
      | inr (fleet', e) ↦
          rw e (assign-IsConsistent trim supplied id driver truck tank reason now fleet fleet' c e)
    ]
perform_fleet-IsConsistent trim (progress id move actor manual now) fleet c =
    elim (Result-cases
      (transition id (from_of move) (to_of move) actor (bare_options manual) now fleet.orders)) [
        | inl (x, e) ↦ rw e c
        | inr (t, e) ↦ rw e (
            progress-IsConsistent id (from_of move) (to_of move) actor manual now fleet t c
              (moves_within move) e)
      ]
perform_fleet-IsConsistent trim (complete id actor now) fleet c =
    on_order-IsConsistent id (λ o. complete_delivery o actor now) fleet c
      (λ o fleet' found h.
        released-IsConsistent unloading delivered actor (bare_options false) now fleet fleet' o c
          found refl h)
perform_fleet-IsConsistent trim (force id from actor reason now) fleet c =
    on_order-IsConsistent id (λ o. force_complete o from actor reason now) fleet c
      (λ o fleet' found h.
        released-IsConsistent from delivered actor
          (record (bare_options true) { override_reason = some reason }) now fleet fleet' o c found
          refl h)
perform_fleet-IsConsistent trim (call_off id from actor reason now) fleet c =
    on_order-IsConsistent id (λ o. cancel_booking o from actor reason now) fleet c
      (λ o fleet' found h.
        released-IsConsistent from cancelled actor (options_of (cancellation actor reason) []) now
          fleet fleet' o c found refl h)
perform_fleet-IsConsistent trim (run_out id now) fleet c =
    on_order-IsConsistent id (λ o. time_out o now) fleet c
      (λ o fleet' found h. time_out-IsConsistent o now fleet fleet' c found h)

perform_fleets-IsConsistent :
    (trim : Text → Text) (rs : List FleetRequest) (fleet : Fleet)
    → IsConsistent fleet
    → IsConsistent (perform_fleets trim rs fleet)
unfolding perform_fleets
perform_fleets-IsConsistent trim [] fleet c = c
perform_fleets-IsConsistent trim (r ∷ rs) fleet c =
    perform_fleets-IsConsistent trim rs (perform_fleet trim r fleet)
      (perform_fleet-IsConsistent trim r fleet c)

-- Whatever orders are assigned, moved on, completed, completed by force, cancelled and left unpaid,
-- from a fleet in which each delivery under way is held by its driver: no two different orders under
-- way have the same driver.
pub driver_on_one_delivery :
    (trim : Text → Text) (rs : List FleetRequest) (fleet : Fleet) (i j d : ℕ) (o p : Order)
    → IsConsistent fleet
    → find_by_id order_id i (perform_fleets trim rs fleet).orders ≡ some o
    → find_by_id order_id j (perform_fleets trim rs fleet).orders ≡ some p
    → is_engaged o.status ≡ true
    → is_engaged p.status ≡ true
    → o.driver_id ≡ some d
    → p.driver_id ≡ some d
    → i ≡ j
driver_on_one_delivery trim rs fleet i j d o p c fo fp eo ep do_ dp =
    let after : Fleet = perform_fleets trim rs fleet in
    let kept : IsConsistent after = perform_fleets-IsConsistent trim rs fleet c in
    sym (find_by_id-key order_id i after.orders o fo)
    ∙ one_order after.drivers o p d (ap (is_crewed after.drivers) (sym fo) ∙ kept i)
        (ap (is_crewed after.drivers) (sym fp) ∙ kept j) eo ep do_ dp
    ∙ find_by_id-key order_id j after.orders p fp
