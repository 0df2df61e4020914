-- ===== src/Invoices/Credit.antt =====
-- src/modules/invoices/invoices.service.ts: the credit that a client takes up, over any requests.
use ciro_fuel_backend.Prelude.{
  ℕ, ◌+◌, ◌≤◌, ◌≡◌, ap, Bool, true, false, ◌&&◌, Option, none, some, List, [], ◌∷◌, ◌++◌, find?,
  find_by_id, replace, get_or, ◌==◌, Result, ok, err, arith, if◌then◌else◌, inl, inr, Bool-cases,
  Option-cases, >>=-eq-ok, Result-cases, find?-holds, or_throw,
}
use ciro_fuel_backend.Prelude.Int.{ℤ, pos, ◌-ℤ◌, ltb_ℤ, -ℤ_parts, pos_part, neg_part}
use ciro_fuel_backend.Order.{Order, UserRole, Text}
use ciro_fuel_backend.Billing.{Rates}
use ciro_fuel_backend.Invoices.Writes.{
  apply_settlement-ok, void_invoice-ok, IsIssue, issue_invoice-ok,
}
use ciro_fuel_backend.Invoices.{
  Invoice, Client, Books, InvoiceError, invoice_id, client_key, is_credit, is_deferred,
  is_outstanding, outstanding_credit, get_available_credit, check_credit, is_for, amount_of,
  invoice_row, issue_invoice, set_transport_company_id, apply_settlement, settle_invoice_for_order,
  find_in_scope, settle_guard, no_invoice, invoice_not_found, settle_by_id, settle, void_invoice,
  settlement,
}

-- What an invoice adds to the outstanding credit of a client.
abbrev part : ℕ → Invoice → ℕ
part c i = if is_outstanding c i then i.amount else 0

pub outstanding_credit-append :
    (c : ℕ) (l : List Invoice) (i : Invoice)
    → outstanding_credit c (l ++ i ∷ []) ≡ outstanding_credit c l + part c i
unfolding outstanding_credit
outstanding_credit-append c [] i = omega arith
outstanding_credit-append c (j ∷ l) i = omega (arith, outstanding_credit-append c l i)

outstanding_credit-replace :
    (c k : ℕ) (l : List Invoice) (b : Invoice)
    → part c b ≡ 0
    → outstanding_credit c (replace invoice_id k b l) ≤ outstanding_credit c l
unfolding outstanding_credit
outstanding_credit-replace c k [] b h = omega arith
outstanding_credit-replace c k (j ∷ l) b h = elim (Bool-cases (j.id == k)) [
  | inl e ↦ rw e (omega (arith, h))
  | inr e ↦ rw e (omega (arith, outstanding_credit-replace c k l b h))
]

-- A row that is admitted fits into what its client has left.
admitted :
    (clients : List Client) (o : Order) (invoices : List Invoice) (holder : Client)
    → find_by_id client_key o.client_id clients ≡ some holder
    → is_credit o.payment_method ≡ true
    → check_credit clients o invoices ≡ ok tt
    → outstanding_credit o.client_id invoices + amount_of o ≤ get_or holder.credit_limit 0
unfolding check_credit get_available_credit
admitted clients o invoices holder e m h = omega (
  arith,
  fits (pos (get_or holder.credit_limit 0) -ℤ pos (outstanding_credit o.client_id invoices))
      (amount_of o) (ground (arith, h, e, m)),
  -ℤ_parts (pos (get_or holder.credit_limit 0)) (pos (outstanding_credit o.client_id invoices)),
)
  where
    fits :
        (available : ℤ) (amount : ℕ)
        → ltb_ℤ available (pos amount) ≡ false
        → amount + neg_part available ≤ pos_part available
    fits available amount h = ground arith

-- A request that writes invoices.
pub data Request : Type 0 where
  issue : Option ℕ → ℕ → ℕ → Order → Request
  assign_transporter : ℕ → ℕ → Request
  settle_order : Option ℕ → ℕ → ℕ → Option Text → ℕ → Request
  settle_one : Option ℕ → (Invoice → Bool) → UserRole → ℕ → ℕ → Option Text → ℕ → Request
  void_order : Option ℕ → (Invoice → Bool) → ℕ → ℕ → Request

abbrev books_after : Result InvoiceError (Invoice × Books) → Books → Books
books_after (ok r) books = r.1
books_after (err e) books = books

abbrev books_or : Result InvoiceError Books → Books → Books
books_or (ok r) books = r
books_or (err e) books = books

-- A request that throws leaves the books as they were.
unfoldable pub perform_request : List Client → Rates → Request → Books → Books
perform_request clients rates (issue acting id movement o) books =
    books_after (issue_invoice acting clients rates id movement o books) books
perform_request clients rates (assign_transporter order company) books = record books {
  invoices = set_transport_company_id order company books.invoices;
}
perform_request clients rates (settle_order acting movement order reference now) books =
    books_after (settle_invoice_for_order acting rates movement order reference now books) books
perform_request clients rates (settle_one acting in_scope role movement id reference now) books =
    books_after (settle acting in_scope role rates movement id reference now books) books
perform_request clients rates (void_order acting in_scope next order) books =
    books_or (void_invoice acting in_scope next order books) books

unfoldable pub perform_requests : List Client → Rates → List Request → Books → Books
perform_requests clients rates [] books = books
perform_requests clients rates (r ∷ rs) books =
    perform_requests clients rates rs (perform_request clients rates r books)

settled_part :
    (c now : ℕ) (reference : Option Text) (i : Invoice) → part c (settlement reference now i) ≡ 0
settled_part c now none i = ground arith
settled_part c now (some []) i = ground arith
settled_part c now (some (x ∷ xs)) i = ground arith

module _ (c : ℕ) (rates : Rates) (acting : Option ℕ) where
  abbrev OwesNoMore : Books → Books → Type 0
  OwesNoMore books books' =
      outstanding_credit c books'.invoices ≤ outstanding_credit c books.invoices

  apply_settlement-credit :
      (movement now : ℕ) (reference : Option Text) (i j : Invoice) (books books' : Books)
      → apply_settlement acting rates movement reference now i books ≡ ok (j, books')
      → OwesNoMore books books'
  apply_settlement-credit movement now reference i j books books' h =
      elim (apply_settlement-ok acting rates movement now reference i books h) [
        | inl (e, f, g) ↦ rw g (omega arith)
        | inr (e, w) ↦
            rw w.written
              (outstanding_credit-replace c i.id books.invoices _ (settled_part c now reference i))
      ]

  void_invoice-credit :
      (in_scope : Invoice → Bool) (next order : ℕ) (books books' : Books)
      → void_invoice acting in_scope next order books ≡ ok books'
      → OwesNoMore books books'
  void_invoice-credit in_scope next order books books' h =
      elim (void_invoice-ok acting rates in_scope next order books h) [
        | inl g ↦ rw g (omega arith)
        | inr (i, n, w) ↦
            rw w.written (outstanding_credit-replace c i.id books.invoices _ (ground arith))
      ]

set_transport_company_id-credit :
    (c order company : ℕ) (l : List Invoice)
    → outstanding_credit c (set_transport_company_id order company l) ≤ outstanding_credit c l
unfolding set_transport_company_id
set_transport_company_id-credit c order company l =
    elim (Option-cases (find? (λ i. is_for order i && is_deferred i.method) l)) [
      | inl n ↦ rw (set_transport_company_id, n) (omega arith)
      | inr (i, n) ↦
          let d : (is_for order i && is_deferred i.method) ≡ true = find?-holds _ l i n in
          rw (set_transport_company_id, n)
            (outstanding_credit-replace c i.id l _ (ground (arith, d)))
    ]

module _ (clients : List Client) (rates : Rates) (c : ℕ) (holder : Client)
    (known : find_by_id client_key c clients ≡ some holder) where
  abbrev IsWithinLimit : Books → Type 0
  IsWithinLimit books = outstanding_credit c books.invoices ≤ get_or holder.credit_limit 0

  issue_invoice-IsWithinLimit :
      (acting : Option ℕ) (id movement : ℕ) (o : Order) (i : Invoice) (books books' : Books)
      → issue_invoice acting clients rates id movement o books ≡ ok (i, books')
      → IsWithinLimit books
      → IsWithinLimit books'
  unfolding invoice_row
  issue_invoice-IsWithinLimit acting id movement o i books books' h within =
      let w : IsIssue acting rates clients id movement o books books' =
        (issue_invoice-ok acting rates clients id movement o books h).1 in
      rw (w.written, outstanding_credit-append c books.invoices (invoice_row id o))
        (elim (Bool-cases (is_outstanding c (invoice_row id o))) [
          | inr e ↦ rw e (omega (arith, within))
          | inl e ↦
              let mine : o.client_id ≡ c = ground (arith, e) in
              rw e (
                omega (
                  arith,
                  admitted clients o books.invoices holder (rw mine known) (ground (arith, e))
                      w.credit_left,
                  ap (λ k. outstanding_credit k books.invoices) mine,
                ))
        ])

  pub perform_request-IsWithinLimit :
      (r : Request) (books : Books)
      → IsWithinLimit books
      → IsWithinLimit (perform_request clients rates r books)
  unfolding perform_request settle_invoice_for_order settle settle_by_id
  perform_request-IsWithinLimit (issue acting id movement o) books h =
      elim (Result-cases (issue_invoice acting clients rates id movement o books)) [
        | inl (x, f) ↦ rw f h
        | inr ((i, b), f) ↦ rw f (issue_invoice-IsWithinLimit acting id movement o i books b f h)
      ]
  perform_request-IsWithinLimit (assign_transporter order company) books h =
      omega (arith, h, set_transport_company_id-credit c order company books.invoices)
  perform_request-IsWithinLimit (settle_order acting movement order reference now) books h =
      elim (Result-cases
        (settle_invoice_for_order acting rates movement order reference now books)) [
          | inl (x, f) ↦ rw f h
          | inr ((j, b), f) ↦
              let (i, e, g) =
                >>=-eq-ok (or_throw (find? (is_for order) books.invoices) no_invoice) _ f in
              rw f (
                omega (
                  arith,
                  h,
                  apply_settlement-credit c rates acting movement now reference i j books b g,
                ))
        ]
  perform_request-IsWithinLimit (settle_one acting in_scope role movement id reference now) books
        h =
      elim (Result-cases (settle acting in_scope role rates movement id reference now books)) [
        | inl (x, f) ↦ rw f h
        | inr ((j, b), f) ↦
            let (i, e, g) =
              >>=-eq-ok (or_throw (find_in_scope in_scope id books.invoices) invoice_not_found) _
                f in
            let (t, a, g1) = >>=-eq-ok (settle_guard i.method role) _ g in
            let (k, e2, g2) =
              >>=-eq-ok (or_throw (find_in_scope in_scope id books.invoices) invoice_not_found) _
                g1 in
            rw f (
              omega (
                arith,
                h,
                apply_settlement-credit c rates acting movement now reference k j books b g2,
              ))
      ]
  perform_request-IsWithinLimit (void_order acting in_scope next order) books h =
      elim (Result-cases (void_invoice acting in_scope next order books)) [
        | inl (x, f) ↦ rw f h
        | inr (b, f) ↦
            rw f
              (omega (arith, h, void_invoice-credit c rates acting in_scope next order books b f))
      ]

  -- Whatever invoices are issued, routed, settled and voided, and in whatever order, a client whose
  -- unpaid credit invoices came to no more than its limit never owes more than its limit.
  pub credit_stays_within_limit :
      (rs : List Request) (books : Books)
      → outstanding_credit c books.invoices ≤ get_or holder.credit_limit 0
      → outstanding_credit c (perform_requests clients rates rs books).invoices
        ≤ get_or holder.credit_limit 0
  unfolding perform_requests
  credit_stays_within_limit [] books h = h
  credit_stays_within_limit (r ∷ rs) books h =
      credit_stays_within_limit rs (perform_request clients rates r books)
        (perform_request-IsWithinLimit r books h)
