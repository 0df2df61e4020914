-- ===== src/Orders/Cancel.antt =====
-- src/modules/orders/orders.service.ts: what is left of an order that has been cancelled.
use ciro_fuel_backend.Prelude.{
  ℕ, ◌≡◌, sym, refl, ap, subst, ◌∙◌, Bool, true, false, not, ◌||◌, Option, none, some, List, [],
  find?, find?-holds, find_by_id, find_by_id-key, find_by_id-replace_self, replace, Result, ok, err,
  arith, Bool-cases, Option-cases, inl, inr, >>=-eq-ok, ok-injective, is_some,
}
use ciro_fuel_backend.Order.{Order, OrderStatus, Text, cancelled}
use ciro_fuel_backend.OrderState.{
  TransitionActor, TransitionError, Transitioned, transition, order_id, apply_transition,
  set_fields, set_field, unset_fields,
}
use ciro_fuel_backend.OrderState.Step.{transition-applied}
use ciro_fuel_backend.Billing.{reverse_accruals_for_invoice}
use ciro_fuel_backend.LitreBalances.{Stamp, return_drawdown}
use ciro_fuel_backend.LitreBalances.Drawdown.{return_drawdown_once}
use ciro_fuel_backend.Invoices.{
  Invoice, InvoiceError, Books, invoice_id, is_for, is_issued, void_invoice, void, lift,
}
use ciro_fuel_backend.Invoices.Outcome.{find?-replace}
use ciro_fuel_backend.Dispatch.{
  lift_transition, options_of, cancellation, cancel_booking, Fleet, DispatchError, driver_id,
  truck_id, tank_id, holds, free_driver, free_truck, free_tank, release_one,
  release_driver_if_assigned,
}
use ciro_fuel_backend.Orders.{Platform, lift_dispatch, lift_invoice, void_if_issued, cancel}

-- The document that an order names does not hold it.
abbrev pub is_let_go {ℓ} : {A : Type ℓ} → (A → ℕ) → (A → Bool) → Option ℕ → List A → Bool
is_let_go key held none xs = true
is_let_go key held (some k) xs = elim (find_by_id key k xs) [ none ↦ true | some a ↦ not (held a) ]

-- The invoice of an order, if there is one, is not open.
abbrev pub is_closed : ℕ → List Invoice → Bool
is_closed order invoices = elim (find? (is_for order) invoices) [
  | none ↦ true
  | some i ↦ not (is_issued i.state)
]

release_one-lets_go {ℓ} :
    {A : Type ℓ} (key : A → ℕ) (held : A → Bool) (free : A → A) (id : Option ℕ) (xs : List A)
    → ((a : A) → held (free a) ≡ false)
    → ((a : A) → key (free a) ≡ key a)
    → is_let_go key held id (release_one key held free id xs) ≡ true
unfolding release_one
release_one-lets_go key held free none xs h k = refl
release_one-lets_go key held free (some id) xs h k = elim (Option-cases (find_by_id key id xs)) [
  | inl n ↦
      let same_documents : release_one key held free (some id) xs ≡ xs = rw (release_one, n) refl in
      ap (is_let_go key held (some id)) same_documents ∙ rw (is_let_go, n) refl
  | inr (a, n) ↦ elim (Bool-cases (held a)) [
    | inr e ↦
        let same_documents : release_one key held free (some id) xs ≡ xs =
          rw (release_one, n, e) refl in
        ap (is_let_go key held (some id)) same_documents ∙ rw (is_let_go, n, e) refl
    | inl e ↦
        let kept : find_by_id key id (replace key id (free a) xs) ≡ some (free a) =
          find_by_id-replace_self key id xs a (free a) n (k a ∙ find_by_id-key key id xs a n) in
        let freed : release_one key held free (some id) xs ≡ replace key id (free a) xs =
          rw (release_one, n, e) refl in
        ap (is_let_go key held (some id)) freed ∙ rw (is_let_go, kept, h a) refl
  ]
]

lift_transition-ok :
    (r : Result TransitionError Transitioned) {t : Transitioned}
    → lift_transition r ≡ ok t
    → r ≡ ok t
lift_transition-ok (ok u) h = ground (arith, h)
lift_transition-ok (err e) h = cc

lift_dispatch-ok {ℓ} :
    {A : Type ℓ} (r : Result DispatchError A) {a : A} → lift_dispatch r ≡ ok a → r ≡ ok a
lift_dispatch-ok (ok u) h = ground (arith, h)
lift_dispatch-ok (err e) h = cc

lift_invoice-ok : (r : Result InvoiceError Books) {b : Books} → lift_invoice r ≡ ok b → r ≡ ok b
lift_invoice-ok (ok u) h = ground (arith, h)
lift_invoice-ok (err e) h = cc

-- A void leaves the orders alone and the invoice of the order closed.
void_invoice-closes :
    (acting : Option ℕ) (next order : ℕ) (books books' : Books)
    → void_invoice acting (λ i. true) next order books ≡ ok books'
    → (books'.orders ≡ books.orders) × (is_closed order books'.invoices ≡ true)
unfolding void_invoice
void_invoice-closes acting next order books books' h =
    elim (Option-cases (find? (is_for order) books.invoices)) [
      | inl n ↦ (ground (arith, h, n), ground (arith, h, n))
      | inr (i, n) ↦ elim (Bool-cases (is_issued i.state)) [
        | inr e ↦ (ground (arith, h, n, e), ground (arith, h, n, e))
        | inl e ↦
            let (l, f, g) =
              >>=-eq-ok (lift (reverse_accruals_for_invoice acting next i.id books.ledger)) _
                (rw (void_invoice, n, e) at h) in
            let voided : find? (is_for order)
                  (replace invoice_id i.id (record i { state = void }) books.invoices)
                ≡ some (record i { state = void }) =
              find?-replace order books.invoices i (record i { state = void }) n
                (find?-holds (is_for order) books.invoices i n) in
            (ground (arith, g), ground (arith, g, voided))
      ]
    ]

void_if_issued-closes :
    (acting : Option ℕ) (next : ℕ) (o : Order) (books books' : Books)
    → void_if_issued acting next o books ≡ ok books'
    → (books'.orders ≡ books.orders)
      × ((not (is_some o.invoice_id) || is_closed o.id books'.invoices) ≡ true)
unfolding void_if_issued
void_if_issued-closes acting next o books books' h = elim (Bool-cases (is_some o.invoice_id)) [
  | inr n ↦ (ground (arith, h, n), ground (arith, n))
  | inl e ↦
      let (kept, closed) =
        void_invoice-closes acting next o.id books books'
          (lift_invoice-ok _ (rw (void_if_issued, e) at h)) in
      (kept, ground (arith, closed))
]

-- A cancelled order: it is stored as cancelled, what it had booked does not hold it, its invoice is
-- not open, and none of its litres is left to return.
pub record IsCancelled (stamp : Stamp) (o : Order) (p : Platform) : Type 0 where
  pub is_over :
      (q : Order) × (find_by_id order_id o.id p.fleet.orders ≡ some q) × (q.status ≡ cancelled)
  pub without_driver :
      is_let_go driver_id (λ d. holds d.active_order_id o.id) o.driver_id p.fleet.drivers ≡ true
  pub without_truck :
      is_let_go truck_id (λ t. holds t.active_order_id o.id) o.truck_id p.fleet.trucks ≡ true
  pub without_tank :
      is_let_go tank_id (λ t. holds t.active_order_id o.id) o.tank_id p.fleet.tanks ≡ true
  pub unbilled : (not (is_some o.invoice_id) || is_closed o.id p.invoices) ≡ true
  pub returned : return_drawdown o.id stamp p.balance ≡ p.balance

cancelled_order :
    (from : OrderStatus) (actor : TransitionActor) (reason : Option Text) (now : ℕ) (o : Order)
    → ((apply_transition from cancelled actor (options_of (cancellation actor reason) []) now o).id
        ≡ o.id)
      × ((apply_transition from cancelled actor
            (options_of (cancellation actor reason) [])
            now
            o).status
          ≡ cancelled)
unfolding apply_transition set_fields set_field unset_fields
cancelled_order from actor none now o = (refl, refl)
cancelled_order from actor (some reason) now o = (refl, refl)

-- A cancellation that goes through, of an order as it was read and from whichever state, leaves it
-- cancelled: the driver, the truck and the tank that it had do not hold it any more, its invoice is
-- not open, and another return of its litres would change nothing.
pub cancel-IsCancelled :
    (acting : Option ℕ) (next : ℕ) (stamp stamp' : Stamp) (o : Order) (from : OrderStatus)
    (actor : TransitionActor) (reason : Option Text) (now : ℕ) (p p' : Platform)
    → cancel acting next stamp o from actor reason now p ≡ ok p'
    → IsCancelled stamp' o p'
unfolding cancel cancel_booking release_driver_if_assigned free_driver free_truck free_tank
cancel-IsCancelled acting next stamp stamp' o from actor reason now p p' h =
    let (fleet, f, h1) =
      >>=-eq-ok (lift_dispatch (cancel_booking o from actor reason now p.fleet)) _ h in
    let (t, e, g) =
      >>=-eq-ok
        (lift_transition (
          transition o.id from cancelled actor (options_of (cancellation actor reason) []) now
            p.fleet.orders))
        _ (lift_dispatch-ok _ f) in
    let made : record (release_driver_if_assigned o p.fleet) { orders = t.orders } ≡ fleet =
      ok-injective _ fleet g in
    let (books, f2, h2) =
      >>=-eq-ok
        (void_if_issued acting next o
          (record { invoices = p.invoices; orders = fleet.orders; ledger = p.ledger }))
        _ h1 in
    let (r, found, changed, written) =
      transition-applied from cancelled actor (options_of (cancellation actor reason) []) now o.id
        p.fleet.orders {t = t} (lift_transition-ok _ e) in
    let (kept, closed) = void_if_issued-closes acting next o _ books f2 in
    let (same_id, over) = cancelled_order from actor reason now r in
    subst (IsCancelled stamp' o) (ok-injective _ p' h2) (record {
      is_over = (
        t.order,
        ap (find_by_id order_id o.id) (kept ∙ ap (λ (x : Fleet). x.orders) (sym made) ∙ written)
            ∙ find_by_id-replace_self order_id o.id p.fleet.orders r t.order found (
                ap (λ (x : Order). x.id) changed
                ∙ same_id
                ∙ find_by_id-key order_id o.id p.fleet.orders r found),
        ap (λ (x : Order). x.status) changed ∙ over,
      );
      without_driver =
          ap
            (λ (x : Fleet).
              is_let_go driver_id (λ d. holds d.active_order_id o.id) o.driver_id x.drivers)
            (sym made)
          ∙ release_one-lets_go driver_id (λ d. holds d.active_order_id o.id) free_driver
              o.driver_id p.fleet.drivers (λ d. refl) (λ d. refl);
      without_truck =
          ap
            (λ (x : Fleet).
              is_let_go truck_id (λ d. holds d.active_order_id o.id) o.truck_id x.trucks)
            (sym made)
          ∙ release_one-lets_go truck_id (λ d. holds d.active_order_id o.id) free_truck o.truck_id
              p.fleet.trucks (λ d. refl) (λ d. refl);
      without_tank =
          ap
            (λ (x : Fleet). is_let_go tank_id (λ d. holds d.active_order_id o.id) o.tank_id x.tanks)
            (sym made)
          ∙ release_one-lets_go tank_id (λ d. holds d.active_order_id o.id) free_tank o.tank_id
              p.fleet.tanks (λ d. refl) (λ d. refl);
      unbilled = closed;
      returned = return_drawdown_once o.id stamp stamp' p.balance;
    })

-- A cancellation returns the litres of its order.
pub cancel-balance :
    (acting : Option ℕ) (next : ℕ) (stamp : Stamp) (o : Order) (from : OrderStatus)
    (actor : TransitionActor) (reason : Option Text) (now : ℕ) (p p' : Platform)
    → cancel acting next stamp o from actor reason now p ≡ ok p'
    → p'.balance ≡ return_drawdown o.id stamp p.balance
unfolding cancel
cancel-balance acting next stamp o from actor reason now p p' h =
    let (fleet, f, h1) =
      >>=-eq-ok (lift_dispatch (cancel_booking o from actor reason now p.fleet)) _ h in
    let (books, f2, h2) =
      >>=-eq-ok
        (void_if_issued acting next o
          (record { invoices = p.invoices; orders = fleet.orders; ledger = p.ledger }))
        _ h1 in
    ap (λ (q : Platform). q.balance) (sym (ok-injective _ p' h2))
