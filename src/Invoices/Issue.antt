-- ===== src/Invoices/Issue.antt =====
-- src/modules/invoices/invoices.service.ts: an invoice that is issued and then voided, against the
-- books from before it.
use ciro_fuel_backend.Prelude.{
  ℕ, ◌≡◌, refl, sym, ap, ◌∙◌, Bool, true, false, Option, none, some, List, [], ◌∷◌, ◌++◌, any,
  filter, find?, find_by_id, replace, ok, leb, ◌==◌, arith, inl, inr, Bool-cases, Option-cases,
  ==_refl, ◌⊎◌,
}
use ciro_fuel_backend.Prelude.Int.{ℤ, pos, ◌+ℤ◌, int_laws}
use ciro_fuel_backend.Order.{Order}
use ciro_fuel_backend.PlatformAccount.{
  AccountMovement, AccountMovementKind, commission_charged, get_confirmed_balance, is_original_of,
  reverses, reverse_movements_for_invoice, is_visible,
}
use ciro_fuel_backend.PlatformAccount.Balances.{
  share, get_confirmed_balance-append, get_confirmed_balance_cons,
}
use ciro_fuel_backend.PlatformAccount.Reversals.{unreversed, reverse_movements_once}
use ciro_fuel_backend.Billing.{
  Rates, accrual, accrue_commission, get_current_commission_term, compute_amount,
  reverse_accruals_for_invoice,
}
use ciro_fuel_backend.Billing.Accruals.{charged_by, accrue_commission-term}
use ciro_fuel_backend.Invoices.{
  Invoice, Client, Books, invoice_id, is_issued, is_outstanding, outstanding_credit, is_for,
  amount_of, invoice_row, issue_invoice, void_invoice, void,
}
use ciro_fuel_backend.Invoices.Writes.{IsIssue, issue_invoice-ok}
use ciro_fuel_backend.Invoices.Credit.{outstanding_credit-append}

-- A movement of the invoice.
abbrev pub is_sourced : ℕ → AccountMovement → Bool
is_sourced invoice m = elim m.source_invoice_id [ none ↦ false | some i ↦ i == invoice ]

no_originals :
    (invoice : ℕ) (l r : List AccountMovement)
    → any (is_sourced invoice) l ≡ false
    → filter (is_original_of invoice) (l ++ r) ≡ filter (is_original_of invoice) r
no_originals invoice [] r h = refl
no_originals invoice (m ∷ l) r h = ground (arith, h, no_originals invoice l r)

any-last :
    (p : AccountMovement → Bool) (l : List AccountMovement) (m : AccountMovement)
    → any p l ≡ false
    → p m ≡ false
    → any p (l ++ m ∷ []) ≡ false
any-last p [] m h e = ground (arith, e)
any-last p (n ∷ l) m h e = ground (arith, h, any-last p l m)

find?-last :
    (p : Invoice → Bool) (l : List Invoice) (i : Invoice)
    → any p l ≡ false
    → p i ≡ true
    → find? p (l ++ i ∷ []) ≡ some i
find?-last p [] i h e = ground (arith, e)
find?-last p (j ∷ l) i h e = ground (arith, h, find?-last p l i)

replace-last :
    (k : ℕ) (l : List Invoice) (i j : Invoice)
    → find_by_id invoice_id k l ≡ none
    → i.id ≡ k
    → replace invoice_id k j (l ++ i ∷ []) ≡ l ++ j ∷ []
replace-last k [] i j h e = ground (arith, e)
replace-last k (x ∷ l) i j h e = ground (arith, h, replace-last k l i j)

-- A ledger that an accrual has extended, or not.
abbrev IsExtended : ℕ → ℕ → ℕ → List AccountMovement → List AccountMovement → Type 0
IsExtended id company invoice l l' =
    (l' ≡ l)
    ⊎ ((m : AccountMovement) × (l' ≡ l ++ m ∷ [])
        × (m.id ≡ id)
        × (m.company_id ≡ company)
        × (is_original_of invoice m ≡ true)
        × (m.reversal_of_id ≡ none))

accrue_commission-IsExtended :
    (acting : Option ℕ) (rates : Rates) (id company invoice amount : ℕ)
    (l l' : List AccountMovement)
    → accrue_commission acting rates id company invoice amount l ≡ ok l'
    → IsExtended id company invoice l l'
unfolding accrue_commission accrual
accrue_commission-IsExtended acting rates id company invoice amount l l' h =
    elim (Option-cases (get_current_commission_term rates.terms)) [
      | inl n ↦ inl (ground (arith, h, n))
      | inr (t, e) ↦
          let charged : ok l' ≡ ok (charged_by acting rates id company invoice amount l t) =
            sym h ∙ accrue_commission-term acting rates id company invoice amount l t e in
          elim (Bool-cases (leb (compute_amount t.basis t.rate amount) 0)) [
            | inl z ↦ inl (ground (arith, charged, z))
            | inr z ↦ inr (
              accrual id company commission_charged (compute_amount t.basis t.rate amount) invoice
                  t.rate t.basis,
              ground (arith, charged, z),
              refl,
              refl,
              ground (arith, ==_refl invoice),
              refl,
            )
          ]
    ]

cancel_row : (x s z : ℤ) → x +ℤ (s +ℤ pos 0) ≡ z +ℤ s → x ≡ z
cancel_row x s z h = grind (int_laws, h)

cancel_zero : (x z : ℤ) → x +ℤ pos 0 ≡ z → x ≡ z
cancel_zero x z h = grind (int_laws, h)

append_empty : (l : List AccountMovement) → l ++ [] ≡ l
append_empty [] = refl
append_empty (m ∷ l) = ap (λ t. m ∷ t) (append_empty l)

-- The originals of an invoice that the ledger had nothing of before the accrual.
unreversed_none :
    (invoice : ℕ) (l : List AccountMovement)
    → any (is_sourced invoice) l ≡ false
    → unreversed l (filter (is_original_of invoice) l) ≡ []
unreversed_none invoice l fresh =
    let nothing : filter (is_original_of invoice) l ≡ [] =
      sym (ap (filter (is_original_of invoice)) (append_empty l))
      ∙ no_originals invoice l [] fresh in
    rw nothing refl

unreversed_row :
    (id invoice : ℕ) (l : List AccountMovement) (m : AccountMovement)
    → any (is_sourced invoice) l ≡ false
    → any (reverses id) l ≡ false
    → m.id ≡ id
    → is_original_of invoice m ≡ true
    → m.reversal_of_id ≡ none
    → unreversed (l ++ m ∷ []) (filter (is_original_of invoice) (l ++ m ∷ [])) ≡ m ∷ []
unreversed_row id invoice l m fresh unreferenced named original plain =
    let kept : any (reverses m.id) (l ++ m ∷ []) ≡ false =
      any-last (reverses m.id) l m (rw named unreferenced) (rw plain refl) in
    rw (no_originals invoice l (m ∷ []) fresh, original, kept) refl

seen_extended :
    (acting : Option ℕ) (l : List AccountMovement) (m : AccountMovement)
    → is_visible acting m ≡ true
    → filter (is_visible acting) (l ++ m ∷ []) ≡ filter (is_visible acting) l ++ m ∷ []
seen_extended acting [] m h = rw h refl
seen_extended acting (n ∷ l) m h = elim (Bool-cases (is_visible acting n)) [
  | inl e ↦ rw e (ap (λ t. n ∷ t) (seen_extended acting l m h))
  | inr e ↦ rw e (seen_extended acting l m h)
]

any-seen :
    (p q : AccountMovement → Bool) (l : List AccountMovement)
    → any p l ≡ false
    → any p (filter q l) ≡ false
any-seen p q [] h = refl
any-seen p q (n ∷ l) h = ground (arith, h, any-seen p q l)

-- Whether the acting company is the one of a movement, or the operator acts.
abbrev pub is_of_company : Option ℕ → ℕ → Bool
is_of_company none company = true
is_of_company (some c) company = company == c

seen_own :
    (acting : Option ℕ) (company : ℕ) (m : AccountMovement)
    → is_of_company acting company ≡ true
    → m.company_id ≡ company
    → is_visible acting m ≡ true
seen_own none company m h e = refl
seen_own (some c) company m h e = ap (λ i. i == c) e ∙ h

-- The reversal of what an accrual has added, by who sees it, gives every balance from before the
-- accrual.
reversal_restores :
    (acting : Option ℕ) (id company next invoice : ℕ) (l l' : List AccountMovement)
    → is_of_company acting company ≡ true
    → any (is_sourced invoice) l ≡ false
    → any (reverses id) l ≡ false
    → IsExtended id company invoice l l'
    → (l'' : List AccountMovement) × (reverse_movements_for_invoice acting next invoice l' ≡ ok l'')
      × ((c : ℕ) (k : AccountMovementKind)
          → get_confirmed_balance c k l'' ≡ get_confirmed_balance c k l)
unfolding get_confirmed_balance
reversal_restores acting id company next invoice l l' sees fresh unreferenced extended =
    let (l'', done, balances, again) = reverse_movements_once acting next next invoice l' in
    let seen : List AccountMovement = filter (is_visible acting) l in
    let fresh_seen : any (is_sourced invoice) seen ≡ false = any-seen _ _ l fresh in
    (
      l'',
      done,
      λ c k. elim extended [
        | inl unchanged ↦
            let none_left : left l' ≡ [] =
              ap left unchanged ∙ unreversed_none invoice seen fresh_seen in
            cancel_zero _ _ (
              ap (λ r. get_confirmed_balance c k l'' +ℤ get_confirmed_balance c k r) (sym none_left)
              ∙ balances c k
              ∙ ap (get_confirmed_balance c k) unchanged)
        | inr (m, added, named, owned, original, plain) ↦
            let one_left : left l' ≡ m ∷ [] =
              ap left added
              ∙ ap (λ t. unreversed t (filter (is_original_of invoice) t))
                  (seen_extended acting l m (seen_own acting company m sees owned))
              ∙ unreversed_row id invoice seen m fresh_seen (any-seen _ _ l unreferenced) named
                  original plain in
            cancel_row _ (share c k m) _ (
              ap (λ r. get_confirmed_balance c k l'' +ℤ r)
                (sym (get_confirmed_balance_cons c k [] m))
              ∙ ap (λ r. get_confirmed_balance c k l'' +ℤ get_confirmed_balance c k r)
                  (sym one_left)
              ∙ balances c k
              ∙ ap (get_confirmed_balance c k) added
              ∙ get_confirmed_balance-append c k l m)
      ],
    )
  where
    left : List AccountMovement → List AccountMovement
    left t =
        unreversed (filter (is_visible acting) t)
          (filter (is_original_of invoice) (filter (is_visible acting) t))

nothing_owed :
    (c : ℕ) (l : List Invoice) (i : Invoice)
    → is_issued i.state ≡ false
    → outstanding_credit c (l ++ i ∷ []) ≡ outstanding_credit c l
nothing_owed c l i h =
    let out : is_outstanding c i ≡ false = ground (arith, h) in
    outstanding_credit-append c l i ∙ rw out (omega arith)

-- An invoice of an order that is issued under new identifiers, and then voided before anyone pays
-- it by someone who sees it, for the fuel company of the order or for the operator, leaves every
-- balance of every company and the outstanding credit of every client as they
-- were before it.
pub void_undoes_issue :
    (acting acting' : Option ℕ) (in_scope : Invoice → Bool) (clients : List Client) (rates : Rates)
    (id movement next : ℕ) (o : Order) (books books' : Books) (i : Invoice)
    → issue_invoice acting clients rates id movement o books ≡ ok (i, books')
    → in_scope (invoice_row id o) ≡ true
    → is_of_company acting' o.fuel_company_id ≡ true
    → find_by_id invoice_id id books.invoices ≡ none
    → any (is_sourced id) books.ledger ≡ false
    → any (reverses movement) books.ledger ≡ false
    → (books'' : Books) × (void_invoice acting' in_scope next o.id books' ≡ ok books'')
      × ((c : ℕ) (k : AccountMovementKind)
          → get_confirmed_balance c k books''.ledger ≡ get_confirmed_balance c k books.ledger)
      × ((c : ℕ) → outstanding_credit c books''.invoices ≡ outstanding_credit c books.invoices)
unfolding void_invoice invoice_row reverse_accruals_for_invoice
void_undoes_issue acting acting' in_scope clients rates id movement next o books books' i h sees
      owns new fresh unreferenced =
    let w : IsIssue acting rates clients id movement o books books' =
      (issue_invoice-ok acting rates clients id movement o books h).1 in
    let row : Invoice = invoice_row id o in
    let (l'', done, balances) =
      reversal_restores acting' movement o.fuel_company_id next id books.ledger books'.ledger owns
        fresh unreferenced
        (accrue_commission-IsExtended acting rates movement o.fuel_company_id id (amount_of o)
          books.ledger books'.ledger w.charged) in
    let found : find? (is_for o.id) books'.invoices ≡ some row =
      rw w.written (find?-last (is_for o.id) books.invoices row w.first (==_refl o.id)) in
    let voided : replace invoice_id id (record row { state = void }) books'.invoices
        ≡ books.invoices ++ record row { state = void } ∷ [] =
      rw w.written (replace-last id books.invoices row (record row { state = void }) new refl) in
    (
      record books' {
        invoices = replace invoice_id id (record row { state = void }) books'.invoices;
        ledger = l'';
      },
      rw (void_invoice, found, sees, reverse_accruals_for_invoice, done) refl,
      balances,
      λ c.
          ap (outstanding_credit c) voided
          ∙ nothing_owed c books.invoices (record row { state = void }) refl,
    )
