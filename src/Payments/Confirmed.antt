-- ===== src/Payments/Confirmed.antt =====
-- src/modules/payments/payments.service.ts: what an accepted webhook has done.
use ciro_fuel_backend.Prelude.{
  ℕ, ◌≡◌, refl, sym, ap, ◌∙◌, true, false, not, ◌||◌, ◌==◌, Option, none, some, List, [], ◌∷◌,
  find?, find_by_id, find_by_id-key, find_by_id-replace_self, is_id, or_throw, >>=-eq-ok, arith,
  Bool-cases, Option-cases, Result-cases, inl, inr, ok,
}
use mathlib.Core.Option.{some-injective}
use ciro_fuel_backend.Order.{Order, pending_payment, routed_to_transport}
use ciro_fuel_backend.OrderState.{
  TransitionOptions, SetField, unset_payment_deadline, transition, order_id,
}
use ciro_fuel_backend.OrderState.Step.{transition-ok}
use ciro_fuel_backend.Billing.{Rates}
use ciro_fuel_backend.Invoices.{
  Invoice, Books, settle_invoice_for_order, is_for, is_issued, no_invoice,
}
use ciro_fuel_backend.Invoices.Writes.{apply_settlement-ok}
use ciro_fuel_backend.Invoices.Outcome.{settlement_is_final}
use ciro_fuel_backend.Payments.{
  PaymentEvent, confirmed, event_of, PaymentState, Delivery, Signing, is_signed, received,
  system_actor, create_event, confirm_order, is_mismatch, apply_payment, handle_webhook,
}

confirm_order-ok :
    (rates : Rates) (movement event order : ℕ) (transaction : List ℕ) (now : ℕ) (books : Books)
    {books' : Books}
    → confirm_order rates movement event order transaction now books ≡ ok books'
    → (i : Invoice) × (b : Books) × (settle_invoice_for_order none rates movement order
          (some transaction)
          now
          books
        ≡ ok (i, b))
      × (o : Order) × (p : Order) × (find_by_id order_id order b.orders ≡ some o)
      × (o.status ≡ pending_payment)
      × (p.status ≡ routed_to_transport)
      × (find_by_id order_id order books'.orders ≡ some p)
      × (books'.invoices ≡ b.invoices)
      × (books'.ledger ≡ b.ledger)
unfolding confirm_order
confirm_order-ok rates movement event order transaction now books {books'} h =
    elim (Result-cases
      (settle_invoice_for_order none rates movement order (some transaction) now books)) [
        | inl (x, e) ↦ absurd (ground (arith, h, e))
        | inr ((i, b), e) ↦
            elim (Result-cases (
              transition order pending_payment routed_to_transport system_actor options now
                b.orders)) [
                  | inl (x, f) ↦ absurd (ground (arith, h, e, f))
                  | inr (t, f) ↦
                      let (o, l, found, moved, r, w) =
                        transition-ok pending_payment routed_to_transport system_actor options now
                          order b.orders {t = t} f in
                      (
                        i,
                        b,
                        e,
                        o,
                        t.order,
                        found,
                        moved.was_from,
                        moved.is_to,
                        ap (find_by_id order_id order)
                              (written t.orders (ground (arith, h, e, f)) ∙ r)
                            ∙ find_by_id-replace_self order_id order b.orders o t.order found
                                (moved.same_id ∙ find_by_id-key order_id order b.orders o found),
                        ground (arith, h, e, f),
                        ground (arith, h, e, f),
                      )
                ]
      ]
  where
    written : (l : List Order) → books'.orders ≡ l → books'.orders ≡ l
    written l e = e

    options : TransitionOptions
    options = record {
      manual_override = false;
      override_reason = none;
      extra_set = SetField.payment_confirmation_id event ∷ [];
      extra_unset = unset_payment_deadline ∷ [];
    }

-- The invoice after a settlement, as it is stored.
settle-closed :
    (rates : Rates) (movement order now : ℕ) (reference : Option (List ℕ)) (books b : Books)
    (i : Invoice)
    → settle_invoice_for_order none rates movement order reference now books ≡ ok (i, b)
    → (find? (is_for order) b.invoices ≡ some i)
      × (is_issued i.state ≡ false)
      × (b.orders ≡ books.orders)
unfolding settle_invoice_for_order
settle-closed rates movement order now reference books b i h =
    let (j, e, g) = >>=-eq-ok (or_throw (find? (is_for order) books.invoices) no_invoice) _ h in
    let found : find? (is_for order) books.invoices ≡ some j = or_throw-some _ e in
    let (stored, closed, again, not_voided) =
      settlement_is_final none none (λ x. true) rates movement movement 0 order now now reference
        reference books b j i found h in
    (
      stored,
      closed,
      (elim (apply_settlement-ok none rates movement now reference j books g) [
        | inl (f, same_row, same_books) ↦ rw same_books refl
        | inr (same_row, w) ↦ w.orders_kept
      ]),
    )
  where
    or_throw-some : (x : Option Invoice) {j : Invoice} → or_throw x no_invoice ≡ ok j → x ≡ some j
    or_throw-some none e = cc
    or_throw-some (some k) e = ground (arith, e)

apply_payment-ok :
    (rates : Rates) (d : Delivery) (o : Order) (s : PaymentState)
    → (apply_payment rates d o s).0 ≡ received true
    → (d.dto.is_paid ≡ true)
      × (is_mismatch d.dto o ≡ false)
      × (confirm_order rates d.movement d.event o.id d.dto.transaction_id d.now s.books
          ≡ ok (apply_payment rates d o s).1.books)
unfolding apply_payment
apply_payment-ok rates d o s h = (ground (arith, h), ground (arith, h), ground (arith, h))

handle_webhook-ok :
    (signing : Signing) (rates : Rates) (d : Delivery) (s : PaymentState)
    → (handle_webhook signing rates d s).0 ≡ received true
    → (o : Order) × (events : List PaymentEvent) × (is_signed signing d ≡ true)
      × (find_by_id order_id d.dto.order_id s.books.orders ≡ some o)
      × (handle_webhook signing rates d s ≡ apply_payment rates d o (record s { events = events }))
unfolding handle_webhook
handle_webhook-ok signing rates d s h = elim (Bool-cases (is_signed signing d)) [
  | inr e ↦ absurd (ground (arith, h, e))
  | inl e ↦ elim (Option-cases (find_by_id order_id d.dto.order_id s.books.orders)) [
    | inl n ↦ absurd (ground (arith, h, e, n))
    | inr (o, n) ↦
        elim (Option-cases
          (create_event (event_of d.event d.gateway d.dto (some o) confirmed) s.events)) [
            | inl c ↦ absurd (ground (arith, h, e, n, c))
            | inr (events, c) ↦ (o, events, e, n, ground (arith, e, n, c))
          ]
  ]
]

-- An accepted webhook had a valid signature, and was of a payment of exactly the final price, in
-- riyals, of the order that it names, which awaited it. In the books that it leaves, the order's
-- invoice is the one that the settlement answers with, which is not open any more, the ledger is as
-- the settlement leaves it, and the order is back with its transporter.
pub webhook_accepted_paid :
    (signing : Signing) (rates : Rates) (d : Delivery) (s : PaymentState)
    → (handle_webhook signing rates d s).0 ≡ received true
    → (o : Order) × (p : Order) × (i : Invoice) × (b : Books) × (is_signed signing d ≡ true)
      × (o.id ≡ d.dto.order_id)
      × (d.dto.is_paid ≡ true)
      × (find_by_id order_id o.id s.books.orders ≡ some o)
      × (o.final_price ≡ some d.dto.amount)
      × (d.dto.currency ≡ 0)
      × (o.status ≡ pending_payment)
      × (settle_invoice_for_order none rates d.movement o.id
            (some d.dto.transaction_id)
            d.now
            s.books
          ≡ ok (i, b))
      × (is_issued i.state ≡ false)
      × (find? (is_for o.id) b.invoices ≡ some i)
      × ((handle_webhook signing rates d s).1.books.invoices ≡ b.invoices)
      × ((handle_webhook signing rates d s).1.books.ledger ≡ b.ledger)
      × (find_by_id order_id o.id (handle_webhook signing rates d s).1.books.orders ≡ some p)
      × (p.status ≡ routed_to_transport)
unfolding is_mismatch
webhook_accepted_paid signing rates d s h =
    let (o, events, signed, found, same_answer) = handle_webhook-ok signing rates d s h in
    let key : o.id ≡ d.dto.order_id =
      find_by_id-key order_id d.dto.order_id s.books.orders o found in
    let (paid, matched, done) =
      apply_payment-ok rates d o (record s { events = events })
        (ap (λ r. r.0) (sym same_answer) ∙ h) in
    let (i, b, settled, q, p, stored, was, is, after, same_invoices, same_ledger) =
      confirm_order-ok rates d.movement d.event o.id d.dto.transaction_id d.now s.books done in
    let (in_books, closed, kept) =
      settle-closed rates d.movement o.id d.now (some d.dto.transaction_id) s.books b i settled in
    let found_by_id : find_by_id order_id o.id s.books.orders ≡ some o = rw key found in
    let same_order : q ≡ o =
      some-injective q o (sym stored ∙ ap (find_by_id order_id o.id) kept ∙ found_by_id) in
    (
      o,
      p,
      i,
      b,
      signed,
      key,
      paid,
      found_by_id,
      of_amount o.final_price d.dto.amount d.dto.currency matched,
      in_riyals o.final_price d.dto.amount d.dto.currency matched,
      ap (λ (x : Order). x.status) (sym same_order) ∙ was,
      settled,
      closed,
      in_books,
      ap (λ r. r.1.books.invoices) same_answer ∙ same_invoices,
      ap (λ r. r.1.books.ledger) same_answer ∙ same_ledger,
      ap (λ r. find_by_id order_id o.id r.1.books.orders) same_answer ∙ after,
      is,
    )
  where
    of_amount : (f : Option ℕ) (a c : ℕ) → (not (is_id f a) || not (c == 0)) ≡ false → f ≡ some a
    of_amount f a c h = ground (arith, h)

    in_riyals : (f : Option ℕ) (a c : ℕ) → (not (is_id f a) || not (c == 0)) ≡ false → c ≡ 0
    in_riyals f a c h = ground (arith, h)
