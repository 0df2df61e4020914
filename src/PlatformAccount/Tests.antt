-- ===== src/PlatformAccount/Tests.antt =====
-- The ledger of src/modules/platform-account/platform-account.service.ts at concrete requests:
-- company 1 is owed SAR 50 of cashback from invoice 40, and has a payment of SAR 20 on record.
use ciro_fuel_backend.Prelude.{ℕ, ◌≡◌, refl, none, some, List, [], ◌∷◌, ◌++◌, ok, filter}
use ciro_fuel_backend.Prelude.Int.{pos, ◌+ℤ◌, ◌-ℤ◌, ◌≤ℤ◌}
use ciro_fuel_backend.PlatformAccount.{
  AccountMovement, AccountMovementKind, cashback_credited, payment_recorded, confirmed, recorded,
  PayoutInput, payout_movement, record_cashback_payout, get_cashback_owed, get_confirmed_balance,
  create_movement, insert, collides, reverse_movements_for_invoice, is_original_of, is_visible,
}
use ciro_fuel_backend.PlatformAccount.Payouts.{payout_lowers_owed}
use ciro_fuel_backend.PlatformAccount.Reversals.{unreversed, reverse_movements_once}

abbrev credit : AccountMovement
credit = record {
  id = 1;
  company_id = 1;
  kind = cashback_credited;
  amount = 5000;
  currency = 0;
  source_invoice_id = some 40;
  applied_rate = some 1;
  applied_basis = some 0;
  method = none;
  reference = none;
  document_file_id = none;
  state = confirmed;
  confirmed_by = none;
  confirmed_at = none;
  reversal_of_id = none;
}

abbrev payment : AccountMovement
payment = record {
  id = 2;
  company_id = 1;
  kind = payment_recorded;
  amount = 2000;
  currency = 0;
  source_invoice_id = none;
  applied_rate = none;
  applied_basis = none;
  method = some 0;
  reference = some (82 ∷ []);
  document_file_id = none;
  state = recorded;
  confirmed_by = none;
  confirmed_at = none;
  reversal_of_id = none;
}

abbrev ledger : List AccountMovement
ledger = credit ∷ payment ∷ []

abbrev input : PayoutInput
input = record { amount = 3000; method = 0; reference = 80 ∷ 49 ∷ []; document_file_id = none }

abbrev paid : AccountMovement
paid = payout_movement 3 1 input 0 9 100

payout_lowers_owed_example :
    (pos 3000 ≤ℤ get_cashback_owed 1 ledger)
    × ((get_cashback_owed 1 (ledger ++ paid ∷ []) ≡ get_cashback_owed 1 ledger -ℤ pos 3000)
        × (get_cashback_owed 2 (ledger ++ paid ∷ []) ≡ get_cashback_owed 2 ledger))
unfolding record_cashback_payout get_cashback_owed get_confirmed_balance create_movement insert
    collides payout_movement ◌+ℤ◌ ◌-ℤ◌
payout_lowers_owed_example =
    payout_lowers_owed 3 1 input 0 9 100 ledger paid (ledger ++ paid ∷ []) 2 refl (λ e. cc)

abbrev confirmed_payment : AccountMovement
confirmed_payment = record payment {
  state = confirmed;
  confirmed_by = some 9;
  confirmed_at = some 100;
}

reverse_movements_once_example :
    (l' : List AccountMovement) × (reverse_movements_for_invoice (some 1) 3 40 ledger ≡ ok l')
    × ((c : ℕ) (k : AccountMovementKind)
        → get_confirmed_balance c k l'
            +ℤ get_confirmed_balance c k (
                unreversed
                  (filter (is_visible (some 1)) ledger)
                  (filter (is_original_of 40) (filter (is_visible (some 1)) ledger)))
          ≡ get_confirmed_balance c k ledger)
    × (reverse_movements_for_invoice (some 1) 9 40 l' ≡ ok l')
reverse_movements_once_example = reverse_movements_once (some 1) 3 9 40 ledger
