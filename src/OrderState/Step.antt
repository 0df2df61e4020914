-- ===== src/OrderState/Step.antt =====
-- One call of `transition`: what a success means, what each refusal means, and that the other
-- orders are left alone.
use ciro_fuel_backend.Prelude.{
  ℕ, ◌≡◌, ◌≢◌, refl, sym, ◌∙◌, subst, Bool, true, false, not, ◌||◌, none, some, List, [], ◌∷◌, ◌++◌,
  ◌⊎◌, inl, inr, arith, find_by_id, replace, find_by_id-key, find_by_id-replace_self,
  find_by_id-replace_ne, ok, is_err, Option-cases, if◌then◌else◌,
}
use ciro_fuel_backend.Order.{
  OrderStatus, Order, delivered, same_status, same_status-eq, same_status_refl,
}
use ciro_fuel_backend.OrderState.{
  TransitionActor, TransitionOptions, SetField, UnsetField, set_field, set_fields, unset_field,
  unset_fields, history_entry, apply_transition, order_id, recipients, Transitioned,
  write_transition, transition, find_rule,
}

-- The extra fields leave the identity, the status, the delivery time and the parties alone.
pub record IsSameCore (o p : Order) : Type 0 where
  pub same_id : p.id ≡ o.id
  pub status_kept : p.status ≡ o.status
  pub delivered_at_kept : p.delivered_at ≡ o.delivered_at
  pub client_kept : p.client_id ≡ o.client_id

set_field-IsSameCore : (f : SetField) (o : Order) → IsSameCore o (set_field f o)
unfolding set_field
set_field-IsSameCore f o = ground arith

set_fields-IsSameCore : (fs : List SetField) (o : Order) → IsSameCore o (set_fields fs o)
unfolding set_fields
set_fields-IsSameCore [] o = ground arith
set_fields-IsSameCore (f ∷ fs) o =
    ground (arith, set_field-IsSameCore f o, set_fields-IsSameCore fs (set_field f o))

unset_field-IsSameCore : (f : UnsetField) (o : Order) → IsSameCore o (unset_field f o)
unfolding unset_field
unset_field-IsSameCore f o = ground arith

unset_fields-IsSameCore : (fs : List UnsetField) (o : Order) → IsSameCore o (unset_fields fs o)
unfolding unset_fields
unset_fields-IsSameCore [] o = ground arith
unset_fields-IsSameCore (f ∷ fs) o =
    ground (arith, unset_field-IsSameCore f o, unset_fields-IsSameCore fs (unset_field f o))

-- Whether the table has the edge, and the caller may take it.
unfoldable pub is_legal : OrderStatus → OrderStatus → Bool → Bool
is_legal from to manual = elim (find_rule from to) [
  | none ↦ false
  | some r ↦ not r.requires_manual_override || manual
]

-- The effect of a transition on one order.
pub record IsMoved (from to : OrderStatus) (actor : TransitionActor) (options : TransitionOptions)
    (now : ℕ) (o p : Order) : Type 0 where
  pub same_id : p.id ≡ o.id
  pub was_from : o.status ≡ from
  pub is_to : p.status ≡ to
  pub delivered_stamped :
      p.delivered_at ≡ (if same_status to delivered then some now else o.delivered_at)
  pub recorded : p.status_history ≡ o.status_history ++ history_entry from to actor options now ∷ []
  pub same_client : p.client_id ≡ o.client_id

module _ (from to : OrderStatus) (actor : TransitionActor) (options : TransitionOptions)
    (now : ℕ) where
  apply_transition-IsMoved :
      (o : Order)
      → o.status ≡ from
      → IsMoved from to actor options now o (apply_transition from to actor options now o)
  unfolding apply_transition
  apply_transition-IsMoved o h = grind (arith, set_fields-IsSameCore, unset_fields-IsSameCore)

  module _ (id : ℕ) (orders : List Order) where
    write_transition-ok :
        {t : Transitioned}
        → write_transition id from to actor options now orders ≡ ok t
        → (o : Order) × (find_by_id order_id id orders ≡ some o)
          × (o.status ≡ from)
          × (t.order ≡ apply_transition from to actor options now o)
          × (t.orders ≡ replace order_id id t.order orders)
          × (t.emitted ≡ recipients t.order)
    unfolding write_transition
    write_transition-ok {t} h = elim (Option-cases (find_by_id order_id id orders)) [
      | inl e ↦ cc
      | inr (o, e) ↦ (
        o,
        e,
        same_status-eq o.status from (ground arith),
        ground arith,
        ground arith,
        ground arith,
      )
    ]

    -- A transition that answers with an order moved that order along a legal edge, and wrote it.
    pub transition-ok :
        {t : Transitioned}
        → transition id from to actor options now orders ≡ ok t
        → (o : Order) × (is_legal from to options.manual_override ≡ true)
          × (find_by_id order_id id orders ≡ some o)
          × IsMoved from to actor options now o t.order
          × (t.orders ≡ replace order_id id t.order orders)
          × (t.emitted ≡ recipients t.order)
    unfolding transition is_legal
    transition-ok {t} h =
        let (o, e, s, m, r, w) = write_transition-ok {t = t} (ground arith) in
        (
          o,
          ground arith,
          e,
          subst (IsMoved from to actor options now o) (sym m) (apply_transition-IsMoved o s),
          r,
          w,
        )

    -- The order that a transition answers with is the stored one, changed by the one write.
    pub transition-applied :
        {t : Transitioned}
        → transition id from to actor options now orders ≡ ok t
        → (o : Order) × (find_by_id order_id id orders ≡ some o)
          × (t.order ≡ apply_transition from to actor options now o)
          × (t.orders ≡ replace order_id id t.order orders)
    unfolding transition
    transition-applied {t} h =
        let (o, e, s, m, r, w) = write_transition-ok {t = t} (ground arith) in (o, e, m, r)

    -- A legal transition of an order in the status that the caller expects goes through. It moves the
    -- order, stores it as returned, tells its recipients and leaves every other order alone.
    pub transition_moves :
        (o : Order) (j : ℕ)
        → is_legal from to options.manual_override ≡ true
        → find_by_id order_id id orders ≡ some o
        → o.status ≡ from
        → j ≢ id
        → (t : Transitioned) × (transition id from to actor options now orders ≡ ok t)
          × IsMoved from to actor options now o t.order
          × (find_by_id order_id id t.orders ≡ some t.order)
          × (find_by_id order_id j t.orders ≡ find_by_id order_id j orders)
          × (t.emitted ≡ recipients t.order)
    unfolding transition is_legal write_transition
    transition_moves o j l e s ne =
        let p : Order = apply_transition from to actor options now o in
        let m : IsMoved from to actor options now o p = apply_transition-IsMoved o s in
        let k : p.id ≡ id = m.same_id ∙ find_by_id-key order_id id orders o e in
        (
          record { order = p; orders = replace order_id id p orders; emitted = recipients p },
          ground (arith, same_status_refl from),
          m,
          find_by_id-replace_self order_id id orders o p e k,
          find_by_id-replace_ne order_id j id orders p ne k,
          refl,
        )

    -- A transition without a legal edge, of no order, or from a status that the order is not in is
    -- refused.
    pub transition_refuses :
        ((is_legal from to options.manual_override ≡ false)
          ⊎ ((find_by_id order_id id orders ≡ none)
              ⊎ ((o : Order) × (find_by_id order_id id orders ≡ some o) × (o.status ≢ from))))
        → is_err (transition id from to actor options now orders) ≡ true
    unfolding transition is_legal write_transition
    transition_refuses h = elim h [
      | inl l ↦ ground arith
      | inr (inl n) ↦ ground arith
      | inr (inr (o, e, ne)) ↦ ground (arith, same_status-eq o.status from)
    ]
