-- ===== src/Billing.antt =====
-- src/modules/billing/billing.service.ts: the operator's commission on an invoice, the cashback on
-- a paid one, and the ceiling of commission that a company may owe. A rate is in hundredths: of a
-- percentage point, or of a riyal per riyal.
pub mod Ceiling
pub mod Accruals
mod Tests
use ciro_fuel_backend.Prelude.{
  ℕ, ◌+◌, ◌*◌, ◌≡◌, Bool, true, false, not, ◌&&◌, ◌||◌, Option, none, some, List, [], ◌∷◌, any,
  find_by_id, get_or, ltb, leb, ◌==◌, Result, ok, err, ◌>>=◌, throw_if, if◌then◌else◌,
}
use ciro_fuel_backend.Prelude.Int.{ℤ, pos, ◌-ℤ◌, ltb_ℤ, leb_ℤ, pos_part, neg_part}
use ciro_fuel_backend.Money.{round_currency}
use ciro_fuel_backend.Companies.{Company, company_id}
use ciro_fuel_backend.PlatformAccount.{
  AccountMovement, AccountMovementKind, commission_charged, cashback_credited, payment_recorded,
  confirmed, AccountError, create_movement, get_confirmed_balance, reverse_movements_for_invoice,
}

pub data CommissionBasis : Type 0 where
  percentage per_unit : CommissionBasis

pub record CommissionTerm : Type 0 where
  pub id : ℕ
  pub basis : CommissionBasis
  pub rate : ℕ
  pub effective_from : ℕ
  pub set_by : ℕ

pub record CashbackProgramme : Type 0 where
  pub id : ℕ
  pub basis : CommissionBasis
  pub rate : ℕ
  pub is_active : Bool
  pub targets_all_companies : Bool
  pub target_company_ids : List ℕ
  pub effective_from : ℕ
  pub set_by : ℕ

-- What the service reads and no request for an invoice changes.
pub record Rates : Type 0 where
  pub terms : List CommissionTerm
  pub programmes : List CashbackProgramme
  pub companies : List Company
  pub default_commission_ceiling : ℕ

module _ {ℓ} {A : Type ℓ} (effective_from id : A → ℕ) where
  -- Whether the first comes before the second in the sort by `effectiveFrom` and `_id`, descending.
  abbrev pub is_later : A → A → Bool
  is_later a b =
      ltb (effective_from b) (effective_from a)
      || ((effective_from a == effective_from b) && ltb (id b) (id a))

  -- `findOne().sort({ effectiveFrom: -1, _id: -1 })`.
  unfoldable pub current : List A → Option A
  current [] = none
  current (a ∷ rest) =
      let later = current rest in
      elim later [ none ↦ some a | some b ↦ if is_later b a then some b else some a ]

abbrev pub term_effective_from : CommissionTerm → ℕ
term_effective_from t = t.effective_from

abbrev pub term_id : CommissionTerm → ℕ
term_id t = t.id

unfoldable pub get_current_commission_term : List CommissionTerm → Option CommissionTerm
get_current_commission_term terms = current term_effective_from term_id terms

unfoldable pub get_current_cashback_programme : List CashbackProgramme → Option CashbackProgramme
get_current_cashback_programme programmes =
    current (λ (p : CashbackProgramme). p.effective_from) (λ p. p.id) programmes

-- `setCommissionTerm`: a new record, in force from now.
unfoldable pub set_commission_term :
    ℕ → CommissionBasis → ℕ → ℕ → ℕ → List CommissionTerm → List CommissionTerm
set_commission_term id basis rate set_by now terms =
    record { id = id; basis = basis; rate = rate; effective_from = now; set_by = set_by } ∷ terms

-- `setCashbackProgramme`: no company is listed where all are targeted.
unfoldable pub set_cashback_programme :
    CashbackProgramme → ℕ → List CashbackProgramme → List CashbackProgramme
set_cashback_programme input now programmes =
    record input {
      target_company_ids = if input.targets_all_companies then [] else input.target_company_ids;
      effective_from = now;
    }
    ∷ programmes

unfoldable pub compute_amount : CommissionBasis → ℕ → ℕ → ℕ
compute_amount percentage rate invoice_amount = round_currency (invoice_amount * rate) 10000
compute_amount per_unit rate invoice_amount = round_currency (invoice_amount * rate) 100

unfoldable pub resolve_ceiling : Rates → ℕ → ℕ
resolve_ceiling rates id = elim (find_by_id company_id id rates.companies) [
  | none ↦ rates.default_commission_ceiling
  | some company ↦ get_or company.commission_ceiling rates.default_commission_ceiling
]

unfoldable pub get_net_commission_owed : ℕ → List AccountMovement → ℤ
get_net_commission_owed id ledger =
    get_confirmed_balance id commission_charged ledger
    -ℤ get_confirmed_balance id payment_recorded ledger

pub data BillingError : Type 0 where
  commission_ceiling_exceeded : BillingError
  account_failed : AccountError → BillingError

unfoldable pub assert_under_ceiling :
    Rates → ℕ → List AccountMovement → Result BillingError (Unit {0})
assert_under_ceiling rates id ledger =
    throw_if (ltb_ℤ (pos (resolve_ceiling rates id)) (get_net_commission_owed id ledger))
      commission_ceiling_exceeded

-- The rows of the two accruals. SAR is currency 0, and a basis is a number.
abbrev basis_code : CommissionBasis → ℕ
basis_code percentage = 0
basis_code per_unit = 1

unfoldable pub accrual : ℕ → ℕ → AccountMovementKind → ℕ → ℕ → ℕ → CommissionBasis → AccountMovement
accrual id company kind amount invoice_id rate basis = record {
  id = id;
  company_id = company;
  kind = kind;
  amount = amount;
  currency = 0;
  source_invoice_id = some invoice_id;
  applied_rate = some rate;
  applied_basis = some (basis_code basis);
  method = none;
  reference = none;
  document_file_id = none;
  state = confirmed;
  confirmed_by = none;
  confirmed_at = none;
  reversal_of_id = none;
}

-- `createMovement`, less the row that it returns.
unfoldable pub accrue :
    Option ℕ → AccountMovement → List AccountMovement → Result BillingError (List AccountMovement)
accrue acting m ledger = elim (create_movement acting m ledger) [
  | err e ↦ err (account_failed e)
  | ok created ↦ ok created.1
]

-- `accrueCommission`, of the company, the identifier and the amount of an invoice. `id` is the new
-- movement's.
unfoldable pub accrue_commission :
    Option ℕ
    → Rates
    → ℕ
    → ℕ
    → ℕ
    → ℕ
    → List AccountMovement
    → Result BillingError (List AccountMovement)
accrue_commission acting rates id company invoice_id invoice_amount ledger =
    elim (get_current_commission_term rates.terms) [
      | none ↦ ok ledger
      | some term ↦
          let amount : ℕ = compute_amount term.basis term.rate invoice_amount in
          if leb amount 0
          then ok ledger
          else accrue acting
              (accrual id company commission_charged amount invoice_id term.rate term.basis) ledger
    ]

unfoldable pub is_targeted : CashbackProgramme → ℕ → Bool
is_targeted p company = p.targets_all_companies || any (λ id. id == company) p.target_company_ids

-- `accrueCashback`.
unfoldable pub accrue_cashback :
    Option ℕ
    → Rates
    → ℕ
    → ℕ
    → ℕ
    → ℕ
    → List AccountMovement
    → Result BillingError (List AccountMovement)
accrue_cashback acting rates id company invoice_id invoice_amount ledger =
    elim (get_current_cashback_programme rates.programmes) [
      | none ↦ ok ledger
      | some programme ↦
          let amount : ℕ = compute_amount programme.basis programme.rate invoice_amount in
          if not programme.is_active || not (is_targeted programme company)
          then ok ledger
          else if leb amount 0
          then ok ledger
          else accrue acting
              (accrual id company cashback_credited amount invoice_id programme.rate
                programme.basis)
              ledger
    ]

-- `reverseAccrualsForInvoice`. `next` is the first new identifier.
unfoldable pub reverse_accruals_for_invoice :
    Option ℕ → ℕ → ℕ → List AccountMovement → Result BillingError (List AccountMovement)
reverse_accruals_for_invoice acting next invoice_id ledger =
    elim (reverse_movements_for_invoice acting next invoice_id ledger) [
      | err e ↦ err (account_failed e)
      | ok ledger' ↦ ok ledger'
    ]

-- `BillingBalances`, less its currency.
pub record BillingBalances : Type 0 where
  pub commission_accrued : ℤ
  pub cashback_accrued : ℤ
  pub commission_ceiling : ℕ
  pub ceiling_warning : Bool
  pub ceiling_exceeded : Bool

-- `accrued >= ceiling * 0.9`, in tenths.
abbrev is_near : ℤ → ℕ → Bool
is_near accrued ceiling = leb (9 * ceiling + 10 * neg_part accrued) (10 * pos_part accrued)

unfoldable pub get_balances_for_company : Rates → ℕ → List AccountMovement → BillingBalances
get_balances_for_company rates id ledger =
    let accrued : ℤ = get_net_commission_owed id ledger in
    let ceiling : ℕ = resolve_ceiling rates id in
    record {
      commission_accrued = accrued;
      cashback_accrued = get_confirmed_balance id cashback_credited ledger;
      commission_ceiling = ceiling;
      ceiling_warning = ltb 0 ceiling && is_near accrued ceiling;
      ceiling_exceeded = ltb_ℤ (pos ceiling) accrued;
    }
