-- ===== src/Routing/Billed.antt =====
-- src/modules/dispatch/services/routing.service.ts: an order that is routed comes out priced with
-- its haul, and billed.
use ciro_fuel_backend.Prelude.{
  ℕ, ◌+◌, ◌*◌, get_or, Option, none, ◌≡◌, refl, sym, ap, subst, ◌∙◌, some, List, [], ◌∷◌, ◌++◌,
  find_by_id, find_by_id-key, find_by_id-replace_self, ok, ==_refl, arith, Option-cases, inl, inr,
  >>=-eq-ok, Result, err,
}
use mathlib.Core.Option.{some-injective}
use ciro_fuel_backend.Money.{PriceBreakdown, derive_price_breakdown, round_currency}
use ciro_fuel_backend.Order.{Order, OrderStatus, routed_to_transport, pending_payment}
use ciro_fuel_backend.OrderState.{
  SetField, Transitioned, TransitionError, transition, order_id, apply_transition, set_fields,
  set_field, unset_fields,
}
use ciro_fuel_backend.OrderState.Step.{transition-applied}
use ciro_fuel_backend.Billing as Billing
use ciro_fuel_backend.Invoices.{
  Client, Invoice, Books, InvoiceError, invoice_row, breakdown_of, issue_invoice, amount_of,
}
use ciro_fuel_backend.Invoices.Writes.{issue_invoice-ok}
use ciro_fuel_backend.Routing.{
  Area, Haulage, Call, fee_for_company, HaulError, price_with_haul, final_price_of,
  settlement_fields, plain_options, lift_transition, lift_invoice, lift_haul,
  await_client_settlement, route_to,
}

-- What an order comes to with a transport fee: the quoted unit price and percentages for the ordered
-- litres with the fee, or else the price that it had, and the fee.
abbrev pub charged : ℕ → Order → Option PriceBreakdown → ℕ
charged fee s none = round_currency (get_or s.final_price s.estimated_price + fee) 1
charged fee s (some quoted) =
    (derive_price_breakdown quoted.unit_price s.quantity_liters (some (100 * fee))
      quoted.service_fee_percent quoted.tax_rate_percent).total

abbrev pub itemised_for : ℕ → ℕ → Option PriceBreakdown → Option PriceBreakdown
itemised_for fee litres none = none
itemised_for fee litres (some quoted) = some (
    derive_price_breakdown quoted.unit_price litres (some (100 * fee)) quoted.service_fee_percent
      quoted.tax_rate_percent)

price_with_haul-itemised :
    (fee : ℕ) (s : Order)
    → price_with_haul s fee ≡ itemised_for fee s.quantity_liters s.price_breakdown
unfolding price_with_haul
price_with_haul-itemised fee s = elim (Option-cases s.price_breakdown) [
  | inl n ↦ ground (arith, n)
  | inr (quoted, n) ↦ ground (arith, n)
]

final_price_of-charged :
    (fee : ℕ) (s : Order) → final_price_of s fee ≡ charged fee s s.price_breakdown
unfolding final_price_of
final_price_of-charged fee s = elim (Option-cases s.price_breakdown) [
  | inl n ↦ ground (arith, n, price_with_haul-itemised fee s)
  | inr (quoted, n) ↦ ground (arith, n, price_with_haul-itemised fee s)
]

module _ (clients : List Client) (rates : Billing.Rates) (call : Call) where
  -- The order once it has been priced, from the routed one.
  priced_order : ℕ → Order → Order
  priced_order fee o =
      apply_transition routed_to_transport pending_payment call.actor
        (plain_options (settlement_fields o fee call.deadline)) call.now o

  -- What the pricing leaves, and what it sets.
  record IsPriced (fee : ℕ) (o p : Order) : Type 0 where
    pub same_id : p.id ≡ o.id
    pub same_transporter : p.transport_company_id ≡ o.transport_company_id
    pub is_pending : p.status ≡ pending_payment
    pub final : p.final_price ≡ some (final_price_of o fee)
    pub broken_down : p.price_breakdown ≡ price_with_haul o fee

  priced_order-IsPriced : (fee : ℕ) (o : Order) → IsPriced fee o (priced_order fee o)
  unfolding priced_order apply_transition settlement_fields set_fields set_field unset_fields
      price_with_haul
  priced_order-IsPriced fee o = record {
    same_id = ground arith;
    same_transporter = ground arith;
    is_pending = ground arith;
    final = ground arith;
    broken_down = ground arith;
  }

  lift_transition-ok :
      (r : Result TransitionError Transitioned) {t : Transitioned}
      → lift_transition r ≡ ok t
      → r ≡ ok t
  lift_transition-ok (ok u) h = ground (arith, h)
  lift_transition-ok (err e) h = cc

  lift_invoice-ok :
      (r : Result InvoiceError (Invoice × Books)) {t : Invoice × Books}
      → lift_invoice r ≡ ok t
      → r ≡ ok t
  lift_invoice-ok (ok u) h = ground (arith, h)
  lift_invoice-ok (err e) h = cc

  lift_haul-ok : (r : Result HaulError ℕ) {t : ℕ} → lift_haul r ≡ ok t → r ≡ ok t
  lift_haul-ok (ok u) h = ground (arith, h)
  lift_haul-ok (err e) h = cc

  await_client_settlement-ok :
      (o p : Order) (fee : ℕ) (books books' : Books) (i : Invoice)
      → find_by_id order_id o.id books.orders ≡ some o
      → await_client_settlement clients rates call o fee books ≡ ok (p, i, books')
      → (p ≡ priced_order fee o)
        × (i ≡ invoice_row call.invoice_id p)
        × (books'.invoices ≡ books.invoices ++ i ∷ [])
  unfolding await_client_settlement priced_order
  await_client_settlement-ok o p fee books books' i found h =
      let (t, e, h1) =
        >>=-eq-ok
          (lift_transition (
            transition o.id routed_to_transport pending_payment call.actor
              (plain_options (settlement_fields o fee call.deadline)) call.now books.orders))
          _ h in
      let (s, stored, changed, rest) =
        transition-applied routed_to_transport pending_payment call.actor
          (plain_options (settlement_fields o fee call.deadline)) call.now o.id books.orders {t = t}
          (lift_transition-ok _ e) in
      let ((j, b), f, h2) =
        >>=-eq-ok
          (lift_invoice (
            issue_invoice call.acting clients rates call.invoice_id call.movement_id t.order
              (record books { orders = t.orders })))
          _ h1 in
      let (row, w) =
        issue_invoice-ok call.acting rates clients call.invoice_id call.movement_id t.order
          (record books { orders = t.orders }) (lift_invoice-ok _ f) in
      let same_order : o ≡ s = some-injective o s (sym found ∙ stored) in
      let answer : t.order ≡ p = ground (arith, h2) in
      let same_row : j ≡ i = ground (arith, h2) in
      let same_books : b ≡ books' = ground (arith, h2) in
      (
        sym answer
            ∙ changed
            ∙ ap
                (λ x.
                  apply_transition routed_to_transport pending_payment call.actor
                    (plain_options (settlement_fields o fee call.deadline)) call.now x)
                (sym same_order),
        sym same_row ∙ row ∙ ap (invoice_row call.invoice_id) answer,
        ap (λ (c : Books). c.invoices) (sym same_books)
            ∙ w.written
            ∙ ap (λ r. books.invoices ++ r ∷ []) (sym row ∙ same_row),
      )

  -- What is billed for an order `s` that goes to a transporter at a fee.
  pub record IsBilled (transporter fee : ℕ) (s p : Order) (i : Invoice) : Type 0 where
    pub pending : p.status ≡ pending_payment
    pub routed : p.transport_company_id ≡ some transporter
    pub final : p.final_price ≡ some i.amount
    pub of_order : i.order_id ≡ p.id
    pub priced_anew : i.amount ≡ charged fee s s.price_breakdown
    pub itemised : i.price_breakdown ≡ itemised_for fee s.quantity_liters s.price_breakdown

  routed_order : OrderStatus → ℕ → Order → Order
  routed_order from transporter s =
      apply_transition from routed_to_transport call.actor
        (plain_options (SetField.transport_company_id transporter ∷ [])) call.now s

  routed_prices :
      (from : OrderStatus) (transporter fee : ℕ) (s : Order)
      → (final_price_of (routed_order from transporter s) fee ≡ final_price_of s fee)
        × (price_with_haul (routed_order from transporter s) fee ≡ price_with_haul s fee)
        × ((routed_order from transporter s).transport_company_id ≡ some transporter)
        × ((routed_order from transporter s).id ≡ s.id)
  unfolding routed_order apply_transition set_fields set_field unset_fields final_price_of
      price_with_haul
  routed_prices from transporter fee s = (refl, refl, refl, refl)

  breakdown-billed :
      (fee : ℕ) (s p : Order)
      → p.final_price ≡ some (final_price_of s fee)
      → p.price_breakdown ≡ price_with_haul s fee
      → breakdown_of p ≡ price_with_haul s fee
  unfolding breakdown_of final_price_of
  breakdown-billed fee s p f b = elim (Option-cases (price_with_haul s fee)) [
    | inl n ↦ ground (arith, f, b, n)
    | inr (d, n) ↦
        let total : amount_of p ≡ d.total = ground (arith, f, n) in
        let shown : p.price_breakdown ≡ some d = b ∙ n in
        rw (n, breakdown_of, shown, total, ==_refl d.total) refl
  ]

  billed :
      (from : OrderStatus) (transporter fee : ℕ) (s p : Order)
      → IsPriced fee (routed_order from transporter s) p
      → IsBilled transporter fee s p (invoice_row call.invoice_id p)
  unfolding invoice_row
  billed from transporter fee s p q =
      let (f, b, t, k) = routed_prices from transporter fee s in
      let final : p.final_price ≡ some (final_price_of s fee) = q.final ∙ ap some f in
      record {
        pending = q.is_pending;
        routed = q.same_transporter ∙ t;
        final = ground (arith, final);
        of_order = refl;
        priced_anew = ground (arith, final) ∙ final_price_of-charged fee s;
        itemised =
            breakdown-billed fee s p final (q.broken_down ∙ b) ∙ price_with_haul-itemised fee s;
      }

  -- Whoever routes it and from whichever state, a stored order that goes to a transporter is left
  -- awaiting its client, with that transporter; and its one new invoice is of the fee that the
  -- transporter charges, on top of the quoted breakdown derived anew if it has one, whatever price
  -- was set at its approval, and otherwise on top of that price.
  pub route_to_bills :
      (haulage : Haulage) (area : Area) (o s p : Order) (from : OrderStatus) (transporter : ℕ)
      (books books' : Books) (i : Invoice)
      → find_by_id order_id o.id books.orders ≡ some s
      → route_to clients rates call haulage area o from transporter books ≡ ok (p, i, books')
      → (fee : ℕ) × (fee_for_company rates.companies transporter area (haulage.nearest o) ≡ ok fee)
        × IsBilled transporter fee s p i
        × (books'.invoices ≡ books.invoices ++ i ∷ [])
  unfolding route_to routed_order
  route_to_bills haulage area o s p from transporter books books' i stored h =
      let (fee, e, h1) =
        >>=-eq-ok (lift_haul (fee_for_company rates.companies transporter area (haulage.nearest o)))
          _ h in
      let (t, f, h2) =
        >>=-eq-ok
          (lift_transition (
            transition o.id from routed_to_transport call.actor
              (plain_options (SetField.transport_company_id transporter ∷ [])) call.now
              books.orders))
          _ h1 in
      let (s', found, changed, written) =
        transition-applied from routed_to_transport call.actor
          (plain_options (SetField.transport_company_id transporter ∷ [])) call.now o.id
          books.orders {t = t} (lift_transition-ok _ f) in
      let same_order : s' ≡ s = some-injective s' s (sym found ∙ stored) in
      let routed : t.order ≡ routed_order from transporter s =
        changed ∙ ap (routed_order from transporter) same_order in
      let key : t.order.id ≡ o.id =
        ap (λ (x : Order). x.id) routed
        ∙ (routed_prices from transporter fee s).3
        ∙ find_by_id-key order_id o.id books.orders s stored in
      let kept : find_by_id order_id t.order.id t.orders ≡ some t.order =
        rw (key, written)
          (find_by_id-replace_self order_id o.id books.orders s t.order stored key) in
      let (priced, row, invoices) =
        await_client_settlement-ok t.order p fee (record books { orders = t.orders }) books' i kept
          h2 in
      (
        fee,
        lift_haul-ok _ e,
        subst (λ j. IsBilled transporter fee s p j) (sym row)
            (billed from transporter fee s p (
              subst (λ x. IsPriced fee x p) routed
                (subst (IsPriced fee t.order) (sym priced) (priced_order-IsPriced fee t.order)))),
        invoices,
      )
