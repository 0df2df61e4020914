-- ===== src/OrderState.antt =====
-- src/modules/orders/services/order-state.service.ts: the table of legal transitions, and the one
-- method through which every status change goes. The logger's records are left out.
pub mod Step
pub mod History
pub mod Delivery
mod Tests
use ciro_fuel_backend.Prelude.{
  ℕ, Bool, true, false, not, ◌&&◌, Option, none, some, List, [], ◌∷◌, ◌++◌, find?, find_by_id,
  find_one_and_update, is_some, Result, ok, err, ◌>>=◌, ◌>>◌, throw_if, or_throw, if◌then◌else◌,
}
use ciro_fuel_backend.Money.{PriceBreakdown}
use ciro_fuel_backend.Order.{
  OrderStatus, pending_approval, approved, awaiting_routing, routed_to_transport,
  assigned_to_driver, pending_payment, loading, in_transit, unloading, delivered, rejected,
  cancelled, UserRole, Text, StatusHistoryEntry, Order, same_status,
}

pub record TransitionRule : Type 0 where
  pub to : OrderStatus
  pub requires_manual_override : Bool

abbrev edge : OrderStatus → TransitionRule
edge s = record { to = s; requires_manual_override = false }

abbrev override_edge : OrderStatus → TransitionRule
override_edge s = record { to = s; requires_manual_override = true }

-- `TRANSITIONS`.
unfoldable pub transitions : OrderStatus → List TransitionRule
transitions pending_approval = edge approved ∷ edge rejected ∷ edge cancelled ∷ []
transitions approved =
    edge pending_payment ∷ edge awaiting_routing ∷ edge routed_to_transport ∷ edge cancelled ∷ []
transitions awaiting_routing = edge routed_to_transport ∷ edge cancelled ∷ []
transitions routed_to_transport =
    edge assigned_to_driver ∷ edge pending_payment ∷ edge cancelled ∷ []
transitions assigned_to_driver = edge loading ∷ edge cancelled ∷ []
transitions pending_payment = edge routed_to_transport ∷ edge approved ∷ edge cancelled ∷ []
transitions loading = edge in_transit ∷ edge cancelled ∷ override_edge delivered ∷ []
transitions in_transit = edge unloading ∷ override_edge delivered ∷ []
transitions unloading = edge delivered ∷ []
transitions delivered = []
transitions rejected = []
transitions cancelled = []

-- `TRANSITIONS[from]?.find((r) => r.to === to)`.
unfoldable pub find_rule : OrderStatus → OrderStatus → Option TransitionRule
unfolding transitions
find_rule from to = find? (λ r. same_status r.to to) (transitions from)

pub record TransitionActor : Type 0 where
  pub actor_id : ℕ
  pub actor_role : UserRole

-- One field of `extraSet`. These are the fields that the callers set.
pub data SetField : Type 0 where
  final_price approved_by transport_company_id payment_deadline : ℕ → SetField
  payment_timeout_count payment_confirmation_id cancelled_by rejected_by : ℕ → SetField
  driver_id truck_id tank_id loading_confirmed_at : ℕ → SetField
  cancellation_reason rejection_reason : Text → SetField
  price_breakdown : PriceBreakdown → SetField

-- One name of `extraUnset`.
pub data UnsetField : Type 0 where
  unset_payment_deadline unset_driver_id : UnsetField

pub record TransitionOptions : Type 0 where
  pub manual_override : Bool
  pub override_reason : Option Text
  pub extra_set : List SetField
  pub extra_unset : List UnsetField

unfoldable pub set_field : SetField → Order → Order
set_field (SetField.final_price v) o = record o { final_price = some v }
set_field (SetField.approved_by v) o = record o { approved_by = some v }
set_field (SetField.transport_company_id v) o = record o { transport_company_id = some v }
set_field (SetField.payment_deadline v) o = record o { payment_deadline = some v }
set_field (SetField.payment_timeout_count v) o = record o { payment_timeout_count = v }
set_field (SetField.payment_confirmation_id v) o = record o { payment_confirmation_id = some v }
set_field (SetField.cancelled_by v) o = record o { cancelled_by = some v }
set_field (SetField.rejected_by v) o = record o { rejected_by = some v }
set_field (SetField.driver_id v) o = record o { driver_id = some v }
set_field (SetField.truck_id v) o = record o { truck_id = some v }
set_field (SetField.tank_id v) o = record o { tank_id = some v }
set_field (SetField.loading_confirmed_at v) o = record o { loading_confirmed_at = some v }
set_field (SetField.cancellation_reason v) o = record o { cancellation_reason = some v }
set_field (SetField.rejection_reason v) o = record o { rejection_reason = some v }
set_field (SetField.price_breakdown v) o = record o { price_breakdown = some v }

unfoldable pub set_fields : List SetField → Order → Order
set_fields [] o = o
set_fields (f ∷ fs) o = set_fields fs (set_field f o)

unfoldable pub unset_field : UnsetField → Order → Order
unset_field unset_payment_deadline o = record o { payment_deadline = none }
unset_field unset_driver_id o = record o { driver_id = none }

unfoldable pub unset_fields : List UnsetField → Order → Order
unset_fields [] o = o
unset_fields (f ∷ fs) o = unset_fields fs (unset_field f o)

unfoldable pub history_entry :
    OrderStatus → OrderStatus → TransitionActor → TransitionOptions → ℕ → StatusHistoryEntry
history_entry from to actor options now = record {
  from = from;
  to = to;
  actor_id = actor.actor_id;
  actor_role = actor.actor_role;
  at = now;
  manual_override = options.manual_override;
  override_reason = if options.manual_override then options.override_reason else none;
}

-- The update of the one write: the status, the delivery time, the extra fields, the history.
unfoldable pub apply_transition :
    OrderStatus → OrderStatus → TransitionActor → TransitionOptions → ℕ → Order → Order
unfolding history_entry
apply_transition from to actor options now o =
    let at : Option ℕ = if same_status to delivered then some now else o.delivered_at in
    let moved : Order = record o { status = to; delivered_at = at } in
    let entry : StatusHistoryEntry = history_entry from to actor options now in
    let changed : Order = unset_fields options.extra_unset (set_fields options.extra_set moved) in
    record changed { status_history = o.status_history ++ entry ∷ [] }

pub data TransitionError : Type 0 where
  invalid_transition override_required : OrderStatus → OrderStatus → TransitionError
  order_not_found : TransitionError
  -- The current status, the wanted one, the expected one.
  stale : OrderStatus → OrderStatus → OrderStatus → TransitionError

-- Who is sent `order:status`: the order's room, the driver, the client.
pub data Recipient : Type 0 where
  order_room user : ℕ → Recipient

abbrev pub order_id : Order → ℕ
order_id o = o.id

unfoldable pub recipients : Order → List Recipient
recipients o =
    Recipient.order_room o.id ∷ (elim o.driver_id [ none ↦ [] | some d ↦ Recipient.user d ∷ [] ])
    ++ (Recipient.user o.client_id ∷ [])

pub record Transitioned : Type 0 where
  pub order : Order
  pub orders : List Order
  pub emitted : List Recipient

-- The part of `transition` after its two guards.
unfoldable pub write_transition :
    ℕ
    → OrderStatus
    → OrderStatus
    → TransitionActor
    → TransitionOptions
    → ℕ
    → List Order
    → Result TransitionError Transitioned
write_transition id from to actor options now orders =
    elim (find_one_and_update order_id id (λ o. same_status o.status from)
      (apply_transition from to actor options now) orders) [
        | some (o, orders') ↦ ok (record { order = o; orders = orders'; emitted = recipients o })
        | none ↦ elim (find_by_id order_id id orders) [
          | none ↦ err order_not_found
          | some existing ↦ err (stale existing.status to from)
        ]
      ]

unfoldable pub transition :
    ℕ
    → OrderStatus
    → OrderStatus
    → TransitionActor
    → TransitionOptions
    → ℕ
    → List Order
    → Result TransitionError Transitioned
transition id from to actor options now orders = do
  rule ← or_throw (find_rule from to) (invalid_transition from to)
  throw_if (rule.requires_manual_override && not options.manual_override)
      (override_required from to)
  write_transition id from to actor options now orders
