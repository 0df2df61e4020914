-- ===== src/OrderState/Delivery.antt =====
-- What the recorded chain says of an order: no delivery without loading, no skip without an
-- audited override, a bounded run after the assignment, and terminal statuses that stay.
use ciro_fuel_backend.Prelude.{
  ℕ, ◌+◌, ◌≤◌, ◌≡◌, refl, sym, ◌∙◌, subst, Bool, true, false, some, List, [], ◌∷◌, ◌⊎◌, inl, inr,
  arith, any, length, All, find_by_id, All-find_by_id, find_by_id-replace_ne, find_by_id-key,
  Bool-cases, ==_iff, ◌==◌, ok, err, Result,
}
use ciro_fuel_backend.Order.{
  OrderStatus, pending_approval, assigned_to_driver, loading, in_transit, unloading, delivered,
  rejected, cancelled, StatusHistoryEntry, Order, same_status,
}
use ciro_fuel_backend.OrderState.{order_id, Transitioned, TransitionError, transition, find_rule}
use ciro_fuel_backend.OrderState.Step.{is_legal, transition-ok}
use ciro_fuel_backend.OrderState.History.{
  Request, request, run, Chain, IsRecorded, IsNew, run-IsRecorded,
}

abbrev pub reached : OrderStatus → StatusHistoryEntry → Bool
reached s e = same_status e.to s

abbrev pub overridden : StatusHistoryEntry → Bool
overridden e = e.manual_override

-- The statuses that come before the truck is at the warehouse, and those that end there.
abbrev before_loading : OrderStatus → Bool
before_loading loading = false
before_loading in_transit = false
before_loading unloading = false
before_loading delivered = false
before_loading _ = true

before_loading-step :
    (from to : OrderStatus) (m : Bool)
    → is_legal from to m ≡ true
    → before_loading from ≡ true
    → (same_status to loading ≡ true) ⊎ (before_loading to ≡ true)
unfolding is_legal find_rule same_status
before_loading-step from to m l b = ground arith

Chain-loading :
    (s t : OrderStatus) (es : List StatusHistoryEntry)
    → Chain s es t
    → before_loading s ≡ true
    → before_loading t ≡ false
    → any (reached loading) es ≡ true
Chain-loading s t [] c b d = ground arith
Chain-loading s t (e ∷ es) c b d =
    ground (arith, before_loading-step e.from e.to e.manual_override, Chain-loading e.to t es c.2)

-- The last edge into `delivered` starts at `unloading`, or is an override.
arrival-step :
    (from to : OrderStatus) (m : Bool)
    → is_legal from to m ≡ true
    → same_status to delivered ≡ true
    → (same_status from unloading ≡ true) ⊎ (m ≡ true)
unfolding is_legal find_rule same_status
arrival-step from to m l d = ground arith

Chain-arrival :
    (s t : OrderStatus) (es : List StatusHistoryEntry)
    → Chain s es t
    → same_status s delivered ≡ false
    → same_status t delivered ≡ true
    → (same_status s unloading ≡ true)
      ⊎ ((any (reached unloading) es ≡ true) ⊎ (any overridden es ≡ true))
Chain-arrival s t [] c b d = ground arith
Chain-arrival s t (e ∷ es) c b d =
    ground (arith, arrival-step e.from e.to e.manual_override, Chain-arrival e.to t es c.2)

-- How far an assigned order has come.
abbrev stage : OrderStatus → ℕ
stage assigned_to_driver = 1
stage loading = 2
stage in_transit = 3
stage unloading = 4
stage delivered = 5
stage cancelled = 5
stage _ = 0

stage-step :
    (from to : OrderStatus) (m : Bool)
    → is_legal from to m ≡ true
    → 1 ≤ stage from
    → stage from + 1 ≤ stage to
unfolding is_legal find_rule same_status
stage-step from to m l b = ground arith

stage_le : (s : OrderStatus) → stage s ≤ 5
stage_le s = ground arith

Chain-stage :
    (s t : OrderStatus) (es : List StatusHistoryEntry)
    → Chain s es t
    → 1 ≤ stage s
    → length es + stage s ≤ 5
Chain-stage s t [] c b = omega (arith, stage_le s)
Chain-stage s t (e ∷ es) c b =
    ground (arith, stage-step e.from e.to e.manual_override, Chain-stage e.to t es c.2)

module _ (rs : List Request) (orders : List Order) (fresh : All IsNew orders) where
  reached_order :
      (k : ℕ) (o : Order) → find_by_id order_id k (run rs orders) ≡ some o → IsRecorded o
  reached_order k o e =
      All-find_by_id order_id IsRecorded k (run rs orders) o (run-IsRecorded rs orders fresh) e

  -- A delivered order has been through loading, and either through unloading, where the delivery
  -- code is checked, or by an override that its history records.
  pub delivered_was_loaded :
      (k : ℕ) (o : Order)
      → find_by_id order_id k (run rs orders) ≡ some o
      → o.status ≡ delivered
      → (any (reached loading) o.status_history ≡ true)
        × ((any (reached unloading) o.status_history ≡ true)
            ⊎ (any overridden o.status_history ≡ true))
  unfolding same_status
  delivered_was_loaded k o e d =
      let r = reached_order k o e in
      let c : Chain pending_approval o.status_history delivered =
        subst (Chain pending_approval o.status_history) d r.chain in
      (
        Chain-loading pending_approval delivered o.status_history c refl refl,
        ground (arith, Chain-arrival pending_approval delivered o.status_history c refl refl),
      )

abbrev pub IsTerminal : OrderStatus → Type 0
IsTerminal s = (s ≡ delivered) ⊎ ((s ≡ rejected) ⊎ (s ≡ cancelled))

terminal-not_legal :
    (from to : OrderStatus) (m : Bool) → IsTerminal from → is_legal from to m ≡ false
unfolding is_legal find_rule
terminal-not_legal from to m h = ground arith

terminal-clash :
    (from to : OrderStatus) (m : Bool) (o p : Order)
    → some p ≡ some o
    → p.status ≡ from
    → IsTerminal o.status
    → is_legal from to m ≡ true
    → ⊥
terminal-clash from to m o p e s h l = ground (arith, terminal-not_legal from to m)

request_keeps_terminal :
    (r : Request) (orders : List Order) (k : ℕ) (o : Order)
    → find_by_id order_id k orders ≡ some o
    → IsTerminal o.status
    → find_by_id order_id k (request r orders) ≡ some o
unfolding request
request_keeps_terminal r orders k o e h =
    go (transition r.id r.from r.to r.actor r.options r.now orders) refl
  where
    go :
        (x : Result TransitionError Transitioned)
        → transition r.id r.from r.to r.actor r.options r.now orders ≡ x
        → find_by_id order_id k (elim x [ ok t ↦ t.orders | err e ↦ orders ]) ≡ some o
    go (err _) _ = e
    go (ok t) q =
        let (p, l, f, m, w, _) = transition-ok r.from r.to r.actor r.options r.now r.id orders q in
        elim (Bool-cases (k == r.id)) [
          | inl y ↦
              let g : find_by_id order_id r.id orders ≡ some o =
                subst (λ j. find_by_id order_id j orders ≡ some o) ((==_iff k r.id).0 y) e in
              absurd (
                terminal-clash r.from r.to r.options.manual_override o p (sym f ∙ g) m.was_from h l)
          | inr n ↦ rw w (
              find_by_id-replace_ne order_id k r.id orders t.order (ground arith)
                (m.same_id ∙ find_by_id-key order_id r.id orders p f)
              ∙ e)
        ]

-- No request moves or changes an order that is delivered, rejected or cancelled.
pub terminal_stays :
    (rs : List Request) (orders : List Order) (k : ℕ) (o : Order)
    → find_by_id order_id k orders ≡ some o
    → IsTerminal o.status
    → find_by_id order_id k (run rs orders) ≡ some o
unfolding run
terminal_stays [] orders k o e h = e
terminal_stays (r ∷ rs) orders k o e h =
    terminal_stays rs (request r orders) k o (request_keeps_terminal r orders k o e h) h

-- Any run of recorded moves from the assignment of a driver on has at most four.
pub assigned_moves_le :
    (t : OrderStatus) (es : List StatusHistoryEntry) → Chain assigned_to_driver es t → length es ≤ 4
assigned_moves_le t es c = omega (arith, Chain-stage assigned_to_driver t es c (omega arith))
