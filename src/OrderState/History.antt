-- ===== src/OrderState/History.antt =====
-- The audit trail. Every order of the collection carries the whole chain of its transitions,
-- whatever requests were made on the collection and in whatever order.
use ciro_fuel_backend.Prelude.{
  ℕ, ◌≡◌, refl, sym, ◌∙◌, Bool, true, false, none, List, [], ◌∷◌, ◌++◌, arith, All, All-find_by_id,
  All-replace, is_some, ok, err, Result,
}
use ciro_fuel_backend.Order.{
  OrderStatus, pending_approval, delivered, StatusHistoryEntry, Order, same_status,
}
use ciro_fuel_backend.OrderState.{
  TransitionActor, TransitionOptions, history_entry, order_id, Transitioned, TransitionError,
  transition, find_rule,
}
use ciro_fuel_backend.OrderState.Step.{IsMoved, is_legal, transition-ok}

-- A request for a transition, as a caller of the service makes it.
pub record Request : Type 0 where
  pub id : ℕ
  pub from : OrderStatus
  pub to : OrderStatus
  pub actor : TransitionActor
  pub options : TransitionOptions
  pub now : ℕ

-- A refused request leaves the collection as it was.
unfoldable pub request : Request → List Order → List Order
request r orders = elim (transition r.id r.from r.to r.actor r.options r.now orders) [
  | ok t ↦ t.orders
  | err e ↦ orders
]

unfoldable pub run : List Request → List Order → List Order
run [] orders = orders
run (r ∷ rs) orders = run rs (request r orders)

-- The entries lead from `s` to `t` by legal edges, each leaving the status that the last one
-- reached; an edge that needs an override is marked as one.
abbrev pub Chain : OrderStatus → List StatusHistoryEntry → OrderStatus → Type 0
Chain s [] t = s ≡ t
Chain s (e ∷ es) t =
    (e.from ≡ s) × (is_legal e.from e.to e.manual_override ≡ true) × Chain e.to es t

Chain-append :
    (s t : OrderStatus) (es : List StatusHistoryEntry) (e : StatusHistoryEntry)
    → Chain s es t
    → e.from ≡ t
    → is_legal e.from e.to e.manual_override ≡ true
    → Chain s (es ++ e ∷ []) e.to
Chain-append s t [] e c f l = (f ∙ sym c, l, refl)
Chain-append s t (x ∷ es) e c f l = (c.0, c.1, Chain-append x.to t es e c.2 f l)

pub record IsRecorded (o : Order) : Type 0 where
  pub chain : Chain pending_approval o.status_history o.status
  pub delivery_stamped : is_some o.delivered_at ≡ same_status o.status delivered

-- What `OrdersService.create` writes.
pub record IsNew (o : Order) : Type 0 where
  pub is_pending : o.status ≡ pending_approval
  pub no_history : o.status_history ≡ []
  pub not_delivered : o.delivered_at ≡ none

IsNew-IsRecorded : (o : Order) → IsNew o → IsRecorded o
unfolding same_status
IsNew-IsRecorded o n = record {
  chain = rw n.no_history (sym n.is_pending);
  delivery_stamped = ground arith;
}

-- Nothing leaves `delivered`.
legal-from_not_delivered :
    (from to : OrderStatus) (m : Bool)
    → is_legal from to m ≡ true
    → same_status from delivered ≡ false
unfolding is_legal find_rule same_status
legal-from_not_delivered from to m l = ground arith

IsMoved-IsRecorded :
    {from to : OrderStatus} {actor : TransitionActor} {options : TransitionOptions} {now : ℕ}
    {o p : Order}
    → is_legal from to options.manual_override ≡ true
    → IsMoved from to actor options now o p
    → IsRecorded o
    → IsRecorded p
unfolding history_entry
IsMoved-IsRecorded {from} {to} {actor} {options} {now} {o} {p} l m r = record {
  chain =
      rw (m.recorded, m.is_to)
        (Chain-append pending_approval o.status o.status_history
          (history_entry from to actor options now) r.chain (sym m.was_from) l);
  delivery_stamped = ground (
    arith,
    m.delivered_stamped,
    r.delivery_stamped,
    legal-from_not_delivered from to options.manual_override l,
  );
}

request-IsRecorded :
    (r : Request) (orders : List Order) → All IsRecorded orders → All IsRecorded (request r orders)
unfolding request
request-IsRecorded r orders h = go (transition r.id r.from r.to r.actor r.options r.now orders) refl
  where
    go :
        (x : Result TransitionError Transitioned)
        → transition r.id r.from r.to r.actor r.options r.now orders ≡ x
        → All IsRecorded (elim x [ ok t ↦ t.orders | err e ↦ orders ])
    go (err e) _ = h
    go (ok t) q =
        let (o, l, e, m, w, _) = transition-ok r.from r.to r.actor r.options r.now r.id orders q in
        let old : IsRecorded o = All-find_by_id order_id IsRecorded r.id orders o h e in
        rw w (All-replace order_id IsRecorded r.id orders t.order h (IsMoved-IsRecorded l m old))

-- Whatever requests are made, each order has the whole chain of its moves on record, and its
-- delivery time exactly if it is delivered.
pub run-IsRecorded :
    (rs : List Request) (orders : List Order) → All IsNew orders → All IsRecorded (run rs orders)
unfolding run
run-IsRecorded rs orders h = go rs orders (All-map orders h)
  where
    All-map : (os : List Order) → All IsNew os → All IsRecorded os
    All-map [] n = n
    All-map (o ∷ os) n = (IsNew-IsRecorded o n.0, All-map os n.1)

    go : (rs : List Request) (os : List Order) → All IsRecorded os → All IsRecorded (run rs os)
    go [] os n = n
    go (r ∷ rs) os n = go rs (request r os) (request-IsRecorded r os n)
