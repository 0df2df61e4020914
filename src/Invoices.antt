-- ===== src/Invoices.antt =====
-- src/modules/invoices/invoices.service.ts and its schema and controller: the invoice of an order,
-- the credit that it takes up, and its settlement or its voiding. Amounts are in halalas, and a
-- credit limit is one of them. A read that the isolation plugin narrows takes `in_scope`, what the
-- acting user may see.
pub mod Credit
pub mod Issue
pub mod Outcome
pub mod Writes
mod Tests
use ciro_fuel_backend.Prelude.{
  ℕ, ◌+◌, ◌≡◌, Bool, true, false, not, ◌&&◌, ◌||◌, Option, none, some, List, [], ◌∷◌, ◌++◌, any,
  filter, find?, length, find_by_id, replace, get_or, ltb, ◌==◌, Result, ok, err, ◌>>=◌, ◌>>◌,
  throw_if, or_throw, if◌then◌else◌,
}
use ciro_fuel_backend.Prelude.Int.{ℤ, pos, ◌-ℤ◌, ltb_ℤ}
use ciro_fuel_backend.Money.{PriceBreakdown}
use ciro_fuel_backend.Order.{
  Order, PaymentMethod, direct, deferred, credit, UserRole, client, transport_company_admin,
  fuel_company_admin, Text,
}
use ciro_fuel_backend.OrderState.{order_id}
use ciro_fuel_backend.PlatformAccount.{AccountMovement}
use ciro_fuel_backend.Billing.{
  Rates, BillingError, assert_under_ceiling, accrue_commission, accrue_cashback,
  reverse_accruals_for_invoice,
}

pub data InvoiceState : Type 0 where
  issued settled void : InvoiceState

pub record Invoice : Type 0 where
  pub id : ℕ
  pub order_id : ℕ
  pub fuel_company_id : ℕ
  pub client_id : ℕ
  pub transport_company_id : Option ℕ
  pub amount : ℕ
  pub price_breakdown : Option PriceBreakdown
  pub method : PaymentMethod
  pub state : InvoiceState
  pub payer_role : UserRole
  pub settled_at : Option ℕ
  pub payment_reference : Option Text

-- A client's user document, as far as the credit goes.
pub record Client : Type 0 where
  pub id : ℕ
  pub credit_limit : Option ℕ

-- What the operations write.
pub record Books : Type 0 where
  pub invoices : List Invoice
  pub orders : List Order
  pub ledger : List AccountMovement

pub data InvoiceError : Type 0 where
  client_not_found no_invoice invoice_not_found duplicate_order : InvoiceError
  -- The amount, and what is available.
  credit_limit_exceeded : ℕ → ℤ → InvoiceError
  settled_by_webhook_only transporter_only fuel_company_only : InvoiceError
  billing_failed : BillingError → InvoiceError

abbrev pub invoice_id : Invoice → ℕ
invoice_id i = i.id

abbrev pub client_key : Client → ℕ
client_key c = c.id

abbrev pub is_issued : InvoiceState → Bool
is_issued issued = true
is_issued settled = false
is_issued void = false

abbrev pub is_credit : PaymentMethod → Bool
is_credit direct = false
is_credit deferred = false
is_credit credit = true

abbrev pub is_deferred : PaymentMethod → Bool
is_deferred direct = false
is_deferred deferred = true
is_deferred credit = false

-- The `$match` of the outstanding credit of a client.
abbrev pub is_outstanding : ℕ → Invoice → Bool
is_outstanding c i = (i.client_id == c) && (is_credit i.method && is_issued i.state)

-- Its `$sum`.
unfoldable pub outstanding_credit : ℕ → List Invoice → ℕ
outstanding_credit c [] = 0
outstanding_credit c (i ∷ is) =
    (if is_outstanding c i then i.amount else 0) + outstanding_credit c is

unfoldable pub get_available_credit : List Client → ℕ → List Invoice → Result InvoiceError ℤ
get_available_credit clients c invoices = elim (find_by_id client_key c clients) [
  | none ↦ err client_not_found
  | some holder ↦ ok (pos (get_or holder.credit_limit 0) -ℤ pos (outstanding_credit c invoices))
]

-- An exception of BillingService.
abbrev pub lift {ℓ} : {A : Type ℓ} → Result BillingError A → Result InvoiceError A
lift (ok a) = ok a
lift (err e) = err (billing_failed e)

abbrev pub is_for : ℕ → Invoice → Bool
is_for order i = i.order_id == order

-- `order.finalPrice ?? order.estimatedPrice`.
abbrev pub amount_of : Order → ℕ
amount_of o = get_or o.final_price o.estimated_price

abbrev pub payer_of : PaymentMethod → UserRole
payer_of direct = client
payer_of deferred = transport_company_admin
payer_of credit = client

-- The breakdown of the order, if its total is the amount.
unfoldable pub breakdown_of : Order → Option PriceBreakdown
breakdown_of o = elim o.price_breakdown [
  | none ↦ none
  | some b ↦ if b.total == amount_of o then some b else none
]

unfoldable pub invoice_row : ℕ → Order → Invoice
invoice_row id o = record {
  id = id;
  order_id = o.id;
  fuel_company_id = o.fuel_company_id;
  client_id = o.client_id;
  transport_company_id = if is_deferred o.payment_method then o.transport_company_id else none;
  amount = amount_of o;
  price_breakdown = breakdown_of o;
  method = o.payment_method;
  state = issued;
  payer_role = payer_of o.payment_method;
  settled_at = none;
  payment_reference = none;
}

-- The guards of `issueInvoice`: the credit limit, then the ceiling.
unfoldable pub check_credit : List Client → Order → List Invoice → Result InvoiceError (Unit {0})
check_credit clients o invoices =
    if is_credit o.payment_method
    then (get_available_credit clients o.client_id invoices >>= λ available.
        throw_if (ltb_ℤ available (pos (amount_of o)))
          (credit_limit_exceeded (amount_of o) available))
    else ok tt

unfoldable pub check_ceiling : Rates → Order → List AccountMovement → Result InvoiceError (Unit {0})
check_ceiling rates o ledger =
    if is_deferred o.payment_method || is_credit o.payment_method
    then lift (assert_under_ceiling rates o.fuel_company_id ledger)
    else ok tt

abbrev pub stamp : ℕ → ℕ → List Order → List Order
stamp order invoice orders = elim (find_by_id order_id order orders) [
  | none ↦ orders
  | some o ↦ replace order_id order (record o { invoice_id = some invoice }) orders
]

-- `issueInvoice`. `acting` is the tenant of the request, `id` and `movement` the new identifiers of
-- the invoice and of its commission. The index on `orderId` is unique.
unfoldable pub issue_invoice :
    Option ℕ → List Client → Rates → ℕ → ℕ → Order → Books → Result InvoiceError (Invoice × Books)
issue_invoice acting clients rates id movement o books = do
  check_credit clients o books.invoices
  check_ceiling rates o books.ledger
  throw_if (any (is_for o.id) books.invoices) duplicate_order
  ledger ←
      lift (accrue_commission acting rates movement o.fuel_company_id id (amount_of o) books.ledger)
  ok (
    invoice_row id o,
    record {
      invoices = books.invoices ++ invoice_row id o ∷ [];
      orders = stamp o.id id books.orders;
      ledger = ledger;
    },
  )

-- `setTransportCompanyId`.
unfoldable pub set_transport_company_id : ℕ → ℕ → List Invoice → List Invoice
set_transport_company_id order company invoices =
    elim (find? (λ i. is_for order i && is_deferred i.method) invoices) [
      | none ↦ invoices
      | some i ↦ replace invoice_id i.id (record i { transport_company_id = some company }) invoices
    ]

abbrev settlement : Option Text → ℕ → Invoice → Invoice
settlement none now i = record i { state = settled; settled_at = some now }
settlement (some []) now i = record i { state = settled; settled_at = some now }
settlement (some (c ∷ cs)) now i = record i {
  state = settled;
  settled_at = some now;
  payment_reference = some (c ∷ cs);
}

-- `applySettlement`, of an invoice that has been read.
unfoldable pub apply_settlement :
    Option ℕ → Rates → ℕ → Option Text → ℕ → Invoice → Books → Result InvoiceError (Invoice × Books)
apply_settlement acting rates movement reference now i books = elim (is_issued i.state) [
  | false ↦ ok (i, books)
  | true ↦
      lift (accrue_cashback acting rates movement i.fuel_company_id i.id i.amount books.ledger)
      >>= λ ledger. ok (
        settlement reference now i,
        record books {
          invoices = replace invoice_id i.id (settlement reference now i) books.invoices;
          ledger = ledger;
        },
      )
]

-- `settleInvoiceForOrder`, of the payment webhook.
unfoldable pub settle_invoice_for_order :
    Option ℕ → Rates → ℕ → ℕ → Option Text → ℕ → Books → Result InvoiceError (Invoice × Books)
settle_invoice_for_order acting rates movement order reference now books = do
  i ← or_throw (find? (is_for order) books.invoices) no_invoice
  apply_settlement acting rates movement reference now i books

-- `findById`, under the scope of the acting user.
unfoldable pub find_in_scope : (Invoice → Bool) → ℕ → List Invoice → Option Invoice
find_in_scope in_scope id invoices = elim (find_by_id invoice_id id invoices) [
  | none ↦ none
  | some i ↦ if in_scope i then some i else none
]

unfoldable pub settle_by_id :
    Option ℕ
    → (Invoice → Bool)
    → Rates
    → ℕ
    → ℕ
    → Option Text
    → ℕ
    → Books
    → Result InvoiceError (Invoice × Books)
settle_by_id acting in_scope rates movement id reference now books = do
  i ← or_throw (find_in_scope in_scope id books.invoices) invoice_not_found
  apply_settlement acting rates movement reference now i books

-- The guards of the controller's `settle`: by whom each kind of invoice is settled.
unfoldable pub settle_guard : PaymentMethod → UserRole → Result InvoiceError (Unit {0})
settle_guard direct role = err settled_by_webhook_only
settle_guard deferred transport_company_admin = ok tt
settle_guard deferred _ = err transporter_only
settle_guard credit fuel_company_admin = ok tt
settle_guard credit _ = err fuel_company_only

-- The controller's `settle`.
unfoldable pub settle :
    Option ℕ
    → (Invoice → Bool)
    → UserRole
    → Rates
    → ℕ
    → ℕ
    → Option Text
    → ℕ
    → Books
    → Result InvoiceError (Invoice × Books)
settle acting in_scope role rates movement id reference now books = do
  i ← or_throw (find_in_scope in_scope id books.invoices) invoice_not_found
  settle_guard i.method role
  settle_by_id acting in_scope rates movement id reference now books

-- `voidInvoice` in a transaction. `next` is the first new identifier of a movement. An order has one
-- invoice, by a unique index; where the acting user may not see it, neither query finds it.
unfoldable pub void_invoice :
    Option ℕ → (Invoice → Bool) → ℕ → ℕ → Books → Result InvoiceError Books
void_invoice acting in_scope next order books = elim (find? (is_for order) books.invoices) [
  | none ↦ ok books
  | some i ↦ elim (in_scope i && is_issued i.state) [
    | false ↦ ok books
    | true ↦ lift (reverse_accruals_for_invoice acting next i.id books.ledger) >>= λ ledger.
        ok (record books {
          invoices = replace invoice_id i.id (record i { state = void }) books.invoices;
          ledger = ledger;
        })
  ]
]

-- `getCreditOutstandingSummary` and `getOutstandingSettlementsSummary`: the amount and the count of
-- the invoices in scope of one method that are still issued.
abbrev amounts : List Invoice → ℕ
amounts [] = 0
amounts (i ∷ is) = i.amount + amounts is

unfoldable pub outstanding_summary :
    (Invoice → Bool) → (PaymentMethod → Bool) → List Invoice → ℕ × ℕ
outstanding_summary in_scope of_method invoices =
    let rows : List Invoice =
      filter (λ i. in_scope i && (of_method i.method && is_issued i.state)) invoices in
    (amounts rows, length rows)
