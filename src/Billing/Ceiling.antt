-- ===== src/Billing/Ceiling.antt =====
-- src/modules/billing/billing.service.ts: the gate on a company that owes more commission than its
-- ceiling.
use ciro_fuel_backend.Prelude.{ℕ, ◌+◌, ◌≡◌, none, false, ◌&&◌, not, List, ok, is_err, arith, ltb}
use ciro_fuel_backend.Prelude.Int.{ℤ, pos, ◌+ℤ◌, ◌-ℤ◌, ◌≤ℤ◌, +ℤ_parts, -ℤ_parts}
use ciro_fuel_backend.PlatformAccount.{AccountMovement, confirm_payment, signed_amount}
use ciro_fuel_backend.PlatformAccount.Payments.{confirm_payment_once, confirm_payment-charged}
use ciro_fuel_backend.Billing.{
  Rates, resolve_ceiling, get_net_commission_owed, assert_under_ceiling, get_balances_for_company,
}

-- The page of balances and the gate agree: a company is refused exactly while its page says that
-- the ceiling is exceeded, and of a ceiling above nothing the page has warned by then.
pub ceiling_page_is_gate :
    (rates : Rates) (c : ℕ) (l : List AccountMovement)
    → (is_err (assert_under_ceiling rates c l)
        ≡ (get_balances_for_company rates c l).ceiling_exceeded)
      × (((get_balances_for_company rates c l).ceiling_exceeded
            && ltb 0 (resolve_ceiling rates c)
            && not (get_balances_for_company rates c l).ceiling_warning)
          ≡ false)
unfolding assert_under_ceiling get_balances_for_company
ceiling_page_is_gate rates c l = (ground arith, ground arith)

under_ceiling :
    (rates : Rates) (c : ℕ) (l : List AccountMovement)
    → get_net_commission_owed c l ≤ℤ pos (resolve_ceiling rates c)
    → assert_under_ceiling rates c l ≡ ok tt
unfolding assert_under_ceiling
under_ceiling rates c l h = ground (arith, h)

paid_down :
    (charged paid : ℤ) (amount ceiling : ℕ)
    → (charged -ℤ paid) ≤ℤ pos (ceiling + amount)
    → (charged -ℤ (paid +ℤ pos amount)) ≤ℤ pos ceiling
paid_down charged paid amount ceiling h = omega (
  arith,
  h,
  -ℤ_parts charged paid,
  -ℤ_parts charged (paid +ℤ pos amount),
  +ℤ_parts paid (pos amount),
)

-- Once a payment is confirmed that covers what a company owes beyond its ceiling, the company is
-- let through at once.
pub confirmed_payment_resumes :
    (rates : Rates) (id by now : ℕ) (l : List AccountMovement) (m : AccountMovement)
    (l' : List AccountMovement)
    → confirm_payment id by now l ≡ ok (m, l')
    → m.reversal_of_id ≡ none
    → get_net_commission_owed m.company_id l ≤ℤ pos (resolve_ceiling rates m.company_id + m.amount)
    → assert_under_ceiling rates m.company_id l' ≡ ok tt
unfolding get_net_commission_owed
confirmed_payment_resumes rates id by now l m l' h original owed =
    let (stored, paid, refused) = confirm_payment_once id by now l m l' by now h in
    let amount : signed_amount m ≡ pos m.amount = ground (arith, original) in
    under_ceiling rates m.company_id l' (
      rw (confirm_payment-charged id by now l m l' m.company_id h, paid, amount)
        (paid_down _ _ m.amount (resolve_ceiling rates m.company_id) owed))
