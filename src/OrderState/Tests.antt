-- ===== src/OrderState/Tests.antt =====
-- The transitions of src/modules/orders/services/order-state.service.ts on concrete orders.
use ciro_fuel_backend.Prelude.{
  ℕ, ◌≡◌, refl, ◌≤◌, Bool, true, false, Option, none, some, List, [], ◌∷◌, ◌⊎◌, any, length, All,
  find_by_id, ok,
}
use ciro_fuel_backend.Order.{
  OrderStatus, Order, same_status, diesel, deferred, pending_approval, approved, assigned_to_driver,
  loading, unloading, delivered, routed_to_transport, fuel_company_admin, driver,
  StatusHistoryEntry,
}
use ciro_fuel_backend.OrderState.{
  TransitionActor, TransitionOptions, Transitioned, transition, order_id, recipients, find_rule,
  transitions, write_transition, apply_transition, set_fields, unset_fields, history_entry,
}
use ciro_fuel_backend.OrderState.Step.{is_legal, IsMoved, transition_moves}
use ciro_fuel_backend.OrderState.History.{Request, request, run, IsNew, IsRecorded, run-IsRecorded}
use ciro_fuel_backend.OrderState.Delivery.{
  reached, overridden, delivered_was_loaded, assigned_moves_le,
}

abbrev new_order : ℕ → Order
new_order i = record {
  id = i;
  fuel_company_id = 1;
  transport_company_id = none;
  client_id = 2;
  fuel_type = diesel;
  quantity_liters = 5000000;
  price_breakdown = none;
  status = pending_approval;
  estimated_price = 0;
  final_price = none;
  approved_by = none;
  payment_method = deferred;
  invoice_id = none;
  driver_id = none;
  truck_id = none;
  tank_id = none;
  payment_deadline = none;
  payment_timeout_count = 0;
  payment_confirmation_id = none;
  status_history = [];
  cancelled_by = none;
  cancellation_reason = none;
  rejected_by = none;
  rejection_reason = none;
  delivered_at = none;
  loading_confirmed_at = none;
  created_at = 0;
}

abbrev two_orders : List Order
two_orders = new_order 7 ∷ new_order 8 ∷ []

abbrev admin : TransitionActor
admin = record { actor_id = 3; actor_role = fuel_company_admin }

abbrev plain : TransitionOptions
plain = record { manual_override = false; override_reason = none; extra_set = []; extra_unset = [] }

abbrev forced : TransitionOptions
forced = record plain { manual_override = true; override_reason = some (97 ∷ []) }

transition_moves_example :
    (t : Transitioned) × (transition 7 pending_approval approved admin plain 50 two_orders ≡ ok t)
    × IsMoved pending_approval approved admin plain 50 (new_order 7) t.order
    × (find_by_id order_id 7 t.orders ≡ some t.order)
    × (find_by_id order_id 8 t.orders ≡ find_by_id order_id 8 two_orders)
    × (t.emitted ≡ recipients t.order)
unfolding is_legal find_rule same_status
transition_moves_example =
    transition_moves pending_approval approved admin plain 50 7 two_orders (new_order 7) 8 refl refl
      refl (λ e. cc)

abbrev step : OrderStatus → OrderStatus → TransitionOptions → Request
step from to options = record {
  id = 7;
  from = from;
  to = to;
  actor = admin;
  options = options;
  now = 60;
}

-- The approval, the routing, the assignment and the loading of order 7, and its completion by force.
abbrev five_steps : List Request
five_steps =
    step pending_approval approved plain
    ∷ step approved routed_to_transport plain
    ∷ step routed_to_transport assigned_to_driver plain
    ∷ step assigned_to_driver loading plain
    ∷ step loading delivered forced
    ∷ []

two_orders-IsNew : All IsNew two_orders
two_orders-IsNew = (
  record { is_pending = refl; no_history = refl; not_delivered = refl },
  (record { is_pending = refl; no_history = refl; not_delivered = refl }, tt),
)

run-IsRecorded_example : All IsRecorded (run five_steps two_orders)
run-IsRecorded_example = run-IsRecorded five_steps two_orders two_orders-IsNew

abbrev order_or_new : Option Order → Order
order_or_new none = new_order 0
order_or_new (some o) = o

abbrev finished : Order
finished = order_or_new (find_by_id order_id 7 (run five_steps two_orders))

delivered_was_loaded_example :
    (any (reached loading) finished.status_history ≡ true)
    × ((any (reached unloading) finished.status_history ≡ true)
        ⊎ (any overridden finished.status_history ≡ true))
unfolding run request transition write_transition find_rule transitions same_status apply_transition
    history_entry set_fields unset_fields
delivered_was_loaded_example =
    delivered_was_loaded five_steps two_orders two_orders-IsNew 7 finished refl refl

abbrev moved : OrderStatus → OrderStatus → Bool → StatusHistoryEntry
moved from to m = record {
  from = from;
  to = to;
  actor_id = 3;
  actor_role = driver;
  at = 70;
  manual_override = m;
  override_reason = none;
}

assigned_moves_le_example :
    length (moved assigned_to_driver loading false ∷ moved loading delivered true ∷ []) ≤ 4
unfolding is_legal find_rule same_status
assigned_moves_le_example =
    assigned_moves_le delivered
      (moved assigned_to_driver loading false ∷ moved loading delivered true ∷ [])
      (refl, refl, (refl, refl, refl))
