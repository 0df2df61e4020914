-- ===== src/Invoices/Outcome.antt =====
-- src/modules/invoices/invoices.service.ts and invoices.controller.ts: an invoice is settled or
-- voided once, and each kind by its own party.
use ciro_fuel_backend.Prelude.{
  ℕ, ◌≡◌, refl, ◌&&◌, ◌⊎◌, inl, inr, Bool, true, false, Option, none, some, List, [], ◌∷◌, find?,
  find_by_id, replace, ok, or_throw, ◌==◌, arith, Bool-cases, Option-cases, >>=-eq-ok, find?-holds,
  ==_refl,
}
use mathlib.Core.Option.{some-injective}
use ciro_fuel_backend.Order.{
  PaymentMethod, deferred, credit, UserRole, transport_company_admin, fuel_company_admin, Text,
}
use ciro_fuel_backend.Billing.{Rates}
use ciro_fuel_backend.Invoices.{
  Invoice, Books, invoice_id, is_issued, is_for, apply_settlement, settle_invoice_for_order, settle,
  settle_guard, find_in_scope, void_invoice, settlement, invoice_not_found,
}
use ciro_fuel_backend.Invoices.Writes.{apply_settlement-ok}

pub find?-replace :
    (order : ℕ) (l : List Invoice) (i j : Invoice)
    → find? (is_for order) l ≡ some i
    → is_for order j ≡ true
    → find? (is_for order) (replace invoice_id i.id j l) ≡ some j
find?-replace order [] i j h f = cc
find?-replace order (x ∷ l) i j h f = elim (Bool-cases (x.id == i.id)) [
  | inl here ↦ rw (here, f) refl
  | inr there ↦ elim (Bool-cases (is_for order x)) [
    | inl g ↦
        let same_row : x ≡ i = some-injective x i (rw g at h) in
        absurd (clash (x.id == i.id) there (rw same_row (==_refl i.id)))
    | inr g ↦ rw (there, g) (find?-replace order l i j (rw g at h) f)
  ]
]
  where
    clash : (b : Bool) → b ≡ false → b ≡ true → ⊥
    clash b h e = cc

pub settlement-kept :
    (now : ℕ) (reference : Option Text) (i : Invoice)
    → ((settlement reference now i).order_id ≡ i.order_id)
      × (is_issued (settlement reference now i).state ≡ false)
settlement-kept now none i = (refl, refl)
settlement-kept now (some []) i = (refl, refl)
settlement-kept now (some (c ∷ cs)) i = (refl, refl)

-- Once the settlement of an order's invoice has gone through, the invoice that is stored is not
-- open any more, every later settlement answers with it and writes nothing, no second cashback
-- either, and a cancellation that comes late does not void it.
pub settlement_is_final :
    (acting acting' : Option ℕ) (in_scope : Invoice → Bool) (rates : Rates)
    (movement movement' next order now now' : ℕ) (reference reference' : Option Text)
    (books books' : Books) (i j : Invoice)
    → find? (is_for order) books.invoices ≡ some i
    → settle_invoice_for_order acting rates movement order reference now books ≡ ok (j, books')
    → (find? (is_for order) books'.invoices ≡ some j)
      × (is_issued j.state ≡ false)
      × (settle_invoice_for_order acting' rates movement' order reference' now' books'
          ≡ ok (j, books'))
      × (void_invoice acting' in_scope next order books' ≡ ok books')
unfolding settle_invoice_for_order apply_settlement void_invoice
settlement_is_final acting acting' in_scope rates movement movement' next order now now' reference
      reference' books books' i j found h =
    let (stored, closed) = outcome in
    let out : (in_scope j && is_issued j.state) ≡ false = ground (arith, closed) in
    (
      stored,
      closed,
      rw (settle_invoice_for_order, stored, apply_settlement, closed) refl,
      rw (void_invoice, stored, out) refl,
    )
  where
    applied : apply_settlement acting rates movement reference now i books ≡ ok (j, books')
    applied = rw (settle_invoice_for_order, found) at h

    outcome : (find? (is_for order) books'.invoices ≡ some j) × (is_issued j.state ≡ false)
    outcome = elim (apply_settlement-ok acting rates movement now reference i books applied) [
      | inl (e, f, g) ↦ (rw (f, g) found, rw f e)
      | inr (f, w) ↦
          let (mine, closed) = settlement-kept now reference i in
          (
            rw (f, w.written)
                (find?-replace order books.invoices i (settlement reference now i) found
                  (rw mine (find?-holds (is_for order) books.invoices i found))),
            rw f closed,
          )
    ]

who :
    (m : PaymentMethod) (role : UserRole) {t : Unit {0}}
    → settle_guard m role ≡ ok t
    → ((m ≡ deferred) × (role ≡ transport_company_admin))
      ⊎ ((m ≡ credit) × (role ≡ fuel_company_admin))
unfolding settle_guard
who m role h = ground (arith, h)

seen :
    (in_scope : Invoice → Bool) (id : ℕ) (l : List Invoice) {i : Invoice}
    → or_throw (find_in_scope in_scope id l) invoice_not_found ≡ ok i
    → (find_by_id invoice_id id l ≡ some i) × (in_scope i ≡ true)
unfolding find_in_scope
seen in_scope id l {i} h = elim (Option-cases (find_by_id invoice_id id l)) [
  | inl n ↦ cc
  | inr (x, e) ↦ elim (Bool-cases (in_scope x)) [
    | inl f ↦ (ground (arith, h, e, f), ground (arith, h, e, f))
    | inr f ↦ absurd (ground (arith, h, e, f))
  ]
]

-- A settlement by hand that goes through is of an invoice that the user may see, by a transport
-- company's admin if it is a deferred one, by a fuel company's if it is on credit, and never of a
-- direct one.
pub settle_by_payer :
    (acting : Option ℕ) (in_scope : Invoice → Bool) (role : UserRole) (rates : Rates)
    (movement id now : ℕ) (reference : Option Text) (books books' : Books) (j : Invoice)
    → settle acting in_scope role rates movement id reference now books ≡ ok (j, books')
    → (i : Invoice) × (find_by_id invoice_id id books.invoices ≡ some i)
      × (in_scope i ≡ true)
      × (((i.method ≡ deferred) × (role ≡ transport_company_admin))
          ⊎ ((i.method ≡ credit) × (role ≡ fuel_company_admin)))
unfolding settle find_in_scope settle_guard
settle_by_payer acting in_scope role rates movement id now reference books books' j h =
    let (i, e, g) =
      >>=-eq-ok (or_throw (find_in_scope in_scope id books.invoices) invoice_not_found) _ h in
    let (t, a, g1) = >>=-eq-ok (settle_guard i.method role) _ g in
    (
      i,
      (seen in_scope id books.invoices e).0,
      (seen in_scope id books.invoices e).1,
      who i.method role a,
    )
