-- ===== src/PlatformAccount/Balances.antt =====
-- A balance over a ledger that grows by a row.
use ciro_fuel_backend.Prelude.{
  ℕ, ◌≡◌, refl, false, Option, List, [], ◌∷◌, ◌++◌, any, arith, ok, if◌then◌else◌, inl, inr,
  Bool-cases,
}
use ciro_fuel_backend.Prelude.Int.{ℤ, pos, ◌+ℤ◌, int_laws}
use ciro_fuel_backend.PlatformAccount.{
  AccountMovement, AccountMovementKind, create_movement, insert, collides, get_confirmed_balance,
  is_in_balance, signed_amount,
}

-- What a row adds to a balance.
abbrev pub share : ℕ → AccountMovementKind → AccountMovement → ℤ
share c k m = if is_in_balance c k m then signed_amount m else pos 0

pub get_confirmed_balance-append :
    (c : ℕ) (k : AccountMovementKind) (l : List AccountMovement) (m : AccountMovement)
    → get_confirmed_balance c k (l ++ m ∷ []) ≡ get_confirmed_balance c k l +ℤ share c k m
unfolding get_confirmed_balance
get_confirmed_balance-append c k [] m = elim (Bool-cases (is_in_balance c k m)) [
  | inl e ↦ rw e (grind int_laws)
  | inr e ↦ rw e (grind int_laws)
]
get_confirmed_balance-append c k (n ∷ l) m = elim (Bool-cases (is_in_balance c k n)) [
  | inl e ↦ rw e (grind (int_laws, get_confirmed_balance-append c k l m))
  | inr e ↦ rw e (get_confirmed_balance-append c k l m)
]

pub get_confirmed_balance_cons :
    (c : ℕ) (k : AccountMovementKind) (l : List AccountMovement) (m : AccountMovement)
    → get_confirmed_balance c k (m ∷ l) ≡ share c k m +ℤ get_confirmed_balance c k l
unfolding get_confirmed_balance
get_confirmed_balance_cons c k l m = elim (Bool-cases (is_in_balance c k m)) [
  | inl e ↦ rw e refl
  | inr e ↦ rw e (grind int_laws)
]

-- A call that goes through appends the row as it was asked for, whichever tenant acts.
pub create_movement-ok :
    (acting : Option ℕ) (m : AccountMovement) (l : List AccountMovement) {n : AccountMovement}
    {l' : List AccountMovement}
    → create_movement acting m l ≡ ok (n, l')
    → (l' ≡ l ++ m ∷ []) × (any (collides m) l ≡ false)
unfolding create_movement insert
create_movement-ok acting m l h = ground arith
