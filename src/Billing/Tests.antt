-- ===== src/Billing/Tests.antt =====
-- The commission and the ceiling of src/modules/billing/billing.service.ts at concrete figures:
-- company 1 owes SAR 60 of commission under a ceiling of SAR 50, and pays SAR 20.
use ciro_fuel_backend.Prelude.{
  arith, ◌≡◌, refl, true, false, ◌&&◌, not, none, some, [], ◌∷◌, ok, is_err, ltb,
}
use ciro_fuel_backend.PlatformAccount.{
  AccountMovement, commission_charged, payment_recorded, recorded, confirmed, confirm_payment,
  get_confirmed_balance,
}
use ciro_fuel_backend.Prelude.Int.{◌+ℤ◌, ◌-ℤ◌}
use ciro_fuel_backend.Money.{round_currency}
use ciro_fuel_backend.Billing.{
  percentage, per_unit, Rates, accrual, accrue_commission, set_commission_term, compute_amount,
  resolve_ceiling, get_net_commission_owed, assert_under_ceiling, get_balances_for_company,
}
use ciro_fuel_backend.Billing.Accruals.{set_commission_term_rules}
use ciro_fuel_backend.Billing.Ceiling.{ceiling_page_is_gate, confirmed_payment_resumes}

abbrev rates : Rates
rates = record {
  terms = record { id = 4; basis = per_unit; rate = 1; effective_from = 90; set_by = 9 } ∷ [];
  programmes = [];
  companies = [];
  default_commission_ceiling = 5000;
}

abbrev owed : AccountMovement
owed = record {
  id = 1;
  company_id = 1;
  kind = commission_charged;
  amount = 6000;
  currency = 0;
  source_invoice_id = some 40;
  applied_rate = some 250;
  applied_basis = some 0;
  method = none;
  reference = none;
  document_file_id = none;
  state = confirmed;
  confirmed_by = none;
  confirmed_at = none;
  reversal_of_id = none;
}

abbrev payment : AccountMovement
payment = record owed {
  id = 2;
  kind = payment_recorded;
  amount = 2000;
  source_invoice_id = none;
  state = recorded;
}

abbrev paid : AccountMovement
paid = record payment { state = confirmed; confirmed_by = some 9; confirmed_at = some 100 }

-- 2.5 % of SAR 1,000 is SAR 25.
set_commission_term_rules_example :
    accrue_commission
      (some 1)
      (record rates { terms = set_commission_term 5 percentage 250 9 100 rates.terms })
      3
      1
      41
      100000
      (owed ∷ [])
    ≡ ok (owed ∷ accrual 3 1 commission_charged 2500 41 250 percentage ∷ [])
unfolding compute_amount round_currency
set_commission_term_rules_example =
    set_commission_term_rules (some 1) rates 3 1 41 100000 (owed ∷ []) 5 9 100 250 percentage
      ((omega arith, omega arith), tt)

ceiling_page_is_gate_example :
    (is_err (assert_under_ceiling rates 1 (owed ∷ []))
      ≡ (get_balances_for_company rates 1 (owed ∷ [])).ceiling_exceeded)
    × (((get_balances_for_company rates 1 (owed ∷ [])).ceiling_exceeded
          && ltb 0 (resolve_ceiling rates 1)
          && not (get_balances_for_company rates 1 (owed ∷ [])).ceiling_warning)
        ≡ false)
ceiling_page_is_gate_example = ceiling_page_is_gate rates 1 (owed ∷ [])

page_exceeds : (get_balances_for_company rates 1 (owed ∷ [])).ceiling_exceeded ≡ true
unfolding get_balances_for_company get_net_commission_owed get_confirmed_balance resolve_ceiling
    ◌+ℤ◌ ◌-ℤ◌
page_exceeds = refl

confirmed_payment_resumes_example : assert_under_ceiling rates 1 (owed ∷ paid ∷ []) ≡ ok tt
unfolding confirm_payment get_net_commission_owed get_confirmed_balance resolve_ceiling ◌+ℤ◌ ◌-ℤ◌
confirmed_payment_resumes_example =
    confirmed_payment_resumes rates 2 9 100 (owed ∷ payment ∷ []) paid (owed ∷ paid ∷ []) refl refl
      (omega arith)
