-- ===== src/Invoices/Tests.antt =====
-- The invoices of src/modules/invoices/invoices.service.ts at concrete figures: client 2 of fuel
-- company 1 has a limit of SAR 100, and orders for SAR 60 on credit.
use ciro_fuel_backend.Prelude.{
  arith, ℕ, ◌≡◌, ◌≤◌, refl, true, false, none, some, List, [], ◌∷◌, ok, err, ◌⊎◌, find_by_id, find?,
}
use ciro_fuel_backend.Prelude.Int.{◌-ℤ◌, pos}
use ciro_fuel_backend.Order.{
  Order, diesel, credit, deferred, routed_to_transport, client, fuel_company_admin,
  transport_company_admin,
}
use ciro_fuel_backend.PlatformAccount.{
  AccountMovement, AccountMovementKind, AccountMovementState, commission_charged, cashback_credited,
  get_confirmed_balance, create_movement, insert, collides,
}
use ciro_fuel_backend.Billing.{
  percentage, Rates, accrual, accrue, accrue_commission, accrue_cashback, compute_amount,
  get_current_commission_term, get_current_cashback_programme, current, resolve_ceiling,
  get_net_commission_owed, assert_under_ceiling, is_targeted,
}
use ciro_fuel_backend.Money.{round_currency}
use ciro_fuel_backend.Invoices.{
  Invoice, Client, Books, issued, settled, invoice_id, outstanding_credit, get_available_credit,
  check_credit, check_ceiling, breakdown_of, invoice_row, issue_invoice, apply_settlement,
  settle_invoice_for_order, settle, settle_by_id, settle_guard, find_in_scope, void_invoice, is_for,
  is_issued, credit_limit_exceeded,
}
use ciro_fuel_backend.Invoices.Credit.{
  issue, void_order, perform_requests, credit_stays_within_limit,
}
use ciro_fuel_backend.Invoices.Issue.{void_undoes_issue}
use ciro_fuel_backend.Invoices.Outcome.{settlement_is_final, settle_by_payer}

abbrev credit_order : ℕ → Order
credit_order i = record {
  id = i;
  fuel_company_id = 1;
  transport_company_id = none;
  client_id = 2;
  fuel_type = diesel;
  quantity_liters = 5000000;
  price_breakdown = none;
  status = routed_to_transport;
  estimated_price = 6000;
  final_price = none;
  approved_by = none;
  payment_method = credit;
  invoice_id = none;
  driver_id = none;
  truck_id = none;
  tank_id = none;
  payment_deadline = none;
  payment_timeout_count = 0;
  payment_confirmation_id = none;
  status_history = [];
  cancelled_by = none;
  cancellation_reason = none;
  rejected_by = none;
  rejection_reason = none;
  delivered_at = none;
  loading_confirmed_at = none;
  created_at = 0;
}

abbrev rates : Rates
rates = record {
  terms = record { id = 4; basis = percentage; rate = 250; effective_from = 90; set_by = 9 } ∷ [];
  programmes =
      record {
        id = 5;
        basis = percentage;
        rate = 100;
        is_active = true;
        targets_all_companies = false;
        target_company_ids = 1 ∷ [];
        effective_from = 90;
        set_by = 9;
      }
      ∷ [];
  companies = [];
  default_commission_ceiling = 5000;
}

abbrev clients : List Client
clients = record { id = 2; credit_limit = some 10000 } ∷ []

abbrev empty_books : Books
empty_books = record { invoices = []; orders = []; ledger = [] }

abbrev first_invoice : Invoice
first_invoice = record {
  id = 40;
  order_id = 7;
  fuel_company_id = 1;
  client_id = 2;
  transport_company_id = none;
  amount = 6000;
  price_breakdown = none;
  method = credit;
  state = issued;
  payer_role = client;
  settled_at = none;
  payment_reference = none;
}

abbrev commission : AccountMovement
commission = record {
  id = 70;
  company_id = 1;
  kind = commission_charged;
  amount = 150;
  currency = 0;
  source_invoice_id = some 40;
  applied_rate = some 250;
  applied_basis = some 0;
  method = none;
  reference = none;
  document_file_id = none;
  state = AccountMovementState.confirmed;
  confirmed_by = none;
  confirmed_at = none;
  reversal_of_id = none;
}

abbrev issued_books : Books
issued_books = record { invoices = first_invoice ∷ []; orders = []; ledger = commission ∷ [] }

issued_once :
    issue_invoice (some 1) clients rates 40 70 (credit_order 7) empty_books
    ≡ ok (first_invoice, issued_books)
unfolding issue_invoice check_credit get_available_credit outstanding_credit check_ceiling
    assert_under_ceiling resolve_ceiling get_net_commission_owed get_confirmed_balance
    accrue_commission get_current_commission_term current compute_amount round_currency accrual
    accrue create_movement insert collides invoice_row breakdown_of ◌-ℤ◌
issued_once = refl

-- A second order for SAR 60 does not fit.
issue_refused :
    issue_invoice (some 1) clients rates 41 71 (credit_order 8) issued_books
    ≡ err (credit_limit_exceeded 6000 (pos 4000))
unfolding issue_invoice check_credit get_available_credit outstanding_credit ◌-ℤ◌
issue_refused = refl

credit_stays_within_limit_example :
    outstanding_credit 2
      (perform_requests clients rates
        (issue (some 1) 40 70 (credit_order 7)
          ∷ void_order (some 1) (λ i. true) 72 7
          ∷ issue (some 1) 41 71 (credit_order 8)
          ∷ [])
        empty_books).invoices
    ≤ 10000
unfolding outstanding_credit
credit_stays_within_limit_example =
    credit_stays_within_limit clients rates 2 (record { id = 2; credit_limit = some 10000 }) refl
      (issue (some 1) 40 70 (credit_order 7)
        ∷ void_order (some 1) (λ i. true) 72 7
        ∷ issue (some 1) 41 71 (credit_order 8)
        ∷ [])
      empty_books (omega arith)

void_undoes_issue_example :
    (books'' : Books) × (void_invoice (some 1) (λ i. true) 71 7 issued_books ≡ ok books'')
    × ((c : ℕ) (k : AccountMovementKind)
        → get_confirmed_balance c k books''.ledger ≡ get_confirmed_balance c k [])
    × ((c : ℕ) → outstanding_credit c books''.invoices ≡ outstanding_credit c [])
void_undoes_issue_example =
    void_undoes_issue (some 1) (some 1) (λ i. true) clients rates 40 70 71 (credit_order 7)
      empty_books issued_books first_invoice issued_once refl refl refl refl refl

abbrev paid_invoice : Invoice
paid_invoice = record first_invoice { state = settled; settled_at = some 500 }

abbrev paid_books : Books
paid_books = record {
  invoices = paid_invoice ∷ [];
  orders = [];
  ledger =
      commission
      ∷ record commission {
        id = 80;
        kind = cashback_credited;
        amount = 60;
        applied_rate = some 100;
      }
      ∷ [];
}

settlement_is_final_example :
    (find? (is_for 7) paid_books.invoices ≡ some paid_invoice)
    × (is_issued paid_invoice.state ≡ false)
    × (settle_invoice_for_order none rates 81 7 none 600 paid_books ≡ ok (paid_invoice, paid_books))
    × (void_invoice (some 1) (λ i. false) 90 7 paid_books ≡ ok paid_books)
unfolding settle_invoice_for_order apply_settlement accrue_cashback get_current_cashback_programme
    current is_targeted compute_amount round_currency accrual accrue create_movement insert collides
settlement_is_final_example =
    settlement_is_final none (some 1) (λ i. false) rates 80 81 90 7 500 600 none none issued_books
      paid_books first_invoice paid_invoice refl refl

settle_by_payer_example :
    (i : Invoice) × (find_by_id invoice_id 40 issued_books.invoices ≡ some i)
    × (true ≡ true)
    × (((i.method ≡ deferred) × (fuel_company_admin ≡ transport_company_admin))
        ⊎ ((i.method ≡ credit) × (fuel_company_admin ≡ fuel_company_admin)))
unfolding settle find_in_scope settle_guard settle_by_id apply_settlement accrue_cashback
    get_current_cashback_programme current is_targeted compute_amount round_currency accrual accrue
    create_movement insert collides
settle_by_payer_example =
    settle_by_payer (some 1) (λ i. true) fuel_company_admin rates 80 40 500 none issued_books
      paid_books paid_invoice refl
