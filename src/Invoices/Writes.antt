-- ===== src/Invoices/Writes.antt =====
-- src/modules/invoices/invoices.service.ts: what an operation that goes through has written.
use ciro_fuel_backend.Prelude.{
  ℕ, ◌≡◌, ◌&&◌, ◌⊎◌, inl, inr, Bool, true, false, Option, some, List, [], ◌∷◌, ◌++◌, any, find?,
  replace, ok, err, throw_if, arith, Bool-cases, Option-cases, >>=-eq-ok, Result,
}
use ciro_fuel_backend.Order.{Order, Text}
use ciro_fuel_backend.Billing.{
  Rates, BillingError, accrue_cashback, accrue_commission, reverse_accruals_for_invoice,
}
use ciro_fuel_backend.Invoices.{
  Invoice, Client, Books, InvoiceError, invoice_id, is_issued, check_credit, check_ceiling, is_for,
  amount_of, invoice_row, issue_invoice, duplicate_order, stamp, apply_settlement, void_invoice,
  void, lift, settlement,
}

lift-ok {ℓ} : {A : Type ℓ} (r : Result BillingError A) {a : A} → lift r ≡ ok a → r ≡ ok a
lift-ok (ok b) h = ground (arith, h)
lift-ok (err e) h = cc

module _ (acting : Option ℕ) (rates : Rates) where
  -- The books after a settlement of an invoice that was issued.
  pub record IsSettled (movement now : ℕ) (reference : Option Text) (i : Invoice)
      (books books' : Books) : Type 0 where
    pub was_issued : is_issued i.state ≡ true
    pub written :
        books'.invoices ≡ replace invoice_id i.id (settlement reference now i) books.invoices
    pub orders_kept : books'.orders ≡ books.orders
    pub accrued :
        accrue_cashback acting rates movement i.fuel_company_id i.id i.amount books.ledger
        ≡ ok books'.ledger

  pub apply_settlement-ok :
      (movement now : ℕ) (reference : Option Text) (i : Invoice) (books : Books) {j : Invoice}
      {books' : Books}
      → apply_settlement acting rates movement reference now i books ≡ ok (j, books')
      → ((is_issued i.state ≡ false) × (j ≡ i) × (books' ≡ books))
        ⊎ ((j ≡ settlement reference now i) × IsSettled movement now reference i books books')
  unfolding apply_settlement
  apply_settlement-ok movement now reference i books {j} {books'} h =
      elim (Bool-cases (is_issued i.state)) [
        | inr e ↦ inl (e, ground (arith, h, e), ground (arith, h, e))
        | inl e ↦
            let (l, f, g) =
              >>=-eq-ok
                (lift (
                  accrue_cashback acting rates movement i.fuel_company_id i.id i.amount
                    books.ledger))
                _ (rw (apply_settlement, e) at h) in
            inr (
              ground (arith, g),
              record {
                was_issued = e;
                written = ground (arith, g);
                orders_kept = ground (arith, g);
                accrued = ground (arith, g, lift-ok _ f);
              },
            )
      ]

  -- The books after an invoice that was issued has been voided.
  pub record IsVoided (next : ℕ) (i : Invoice) (books books' : Books) : Type 0 where
    pub was_issued : is_issued i.state ≡ true
    pub written :
        books'.invoices ≡ replace invoice_id i.id (record i { state = void }) books.invoices
    pub orders_kept : books'.orders ≡ books.orders
    pub reversed : reverse_accruals_for_invoice acting next i.id books.ledger ≡ ok books'.ledger

  pub void_invoice-ok :
      (in_scope : Invoice → Bool) (next order : ℕ) (books : Books) {books' : Books}
      → void_invoice acting in_scope next order books ≡ ok books'
      → (books' ≡ books)
        ⊎ ((i : Invoice) × (find? (is_for order) books.invoices ≡ some i)
            × IsVoided next i books books')
  unfolding void_invoice
  void_invoice-ok in_scope next order books {books'} h =
      elim (Option-cases (find? (is_for order) books.invoices)) [
        | inl n ↦ inl (ground (arith, h, n))
        | inr (i, n) ↦ elim (Bool-cases (in_scope i && is_issued i.state)) [
          | inr e ↦ inl (ground (arith, h, n, e))
          | inl e ↦
              let (l, f, g) =
                >>=-eq-ok (lift (reverse_accruals_for_invoice acting next i.id books.ledger)) _
                  (rw (void_invoice, n, e) at h) in
              inr (
                i,
                n,
                record {
                  was_issued = ground (arith, e);
                  written = ground (arith, g);
                  orders_kept = ground (arith, g);
                  reversed = ground (arith, g, lift-ok _ f);
                },
              )
        ]
      ]

  -- The books after an invoice has been issued.
  pub record IsIssue (clients : List Client) (id movement : ℕ) (o : Order) (books books' : Books)
      : Type 0 where
    pub credit_left : check_credit clients o books.invoices ≡ ok tt
    pub under_ceiling : check_ceiling rates o books.ledger ≡ ok tt
    pub first : any (is_for o.id) books.invoices ≡ false
    pub written : books'.invoices ≡ books.invoices ++ invoice_row id o ∷ []
    pub stamped : books'.orders ≡ stamp o.id id books.orders
    pub charged :
        accrue_commission acting rates movement o.fuel_company_id id (amount_of o) books.ledger
        ≡ ok books'.ledger

  pub issue_invoice-ok :
      (clients : List Client) (id movement : ℕ) (o : Order) (books : Books) {i : Invoice}
      {books' : Books}
      → issue_invoice acting clients rates id movement o books ≡ ok (i, books')
      → (i ≡ invoice_row id o) × IsIssue clients id movement o books books'
  unfolding issue_invoice
  issue_invoice-ok clients id movement o books h =
      let (t, a, h1) = >>=-eq-ok (check_credit clients o books.invoices) _ h in
      let (u, b, h2) = >>=-eq-ok (check_ceiling rates o books.ledger) _ h1 in
      let (v, c, h3) =
        >>=-eq-ok (throw_if (any (is_for o.id) books.invoices) duplicate_order) _ h2 in
      let (l, f, g) =
        >>=-eq-ok
          (lift (
            accrue_commission acting rates movement o.fuel_company_id id (amount_of o)
              books.ledger))
          _ h3 in
      (
        ground (arith, g),
        record {
          credit_left = a;
          under_ceiling = b;
          first = not_thrown _ _ c;
          written = ground (arith, g);
          stamped = ground (arith, g);
          charged = ground (arith, g, lift-ok _ f);
        },
      )
    where
      not_thrown : (c : Bool) (e : InvoiceError) {t : Unit {0}} → throw_if c e ≡ ok t → c ≡ false
      not_thrown c e h = ground (arith, h)
