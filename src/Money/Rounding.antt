-- ===== src/Money/Rounding.antt =====
-- `roundCurrency`, half up.
use ciro_fuel_backend.Prelude.{ℕ, ◌+◌, ◌*◌, ◌/◌, ◌≤◌, ◌<◌, ◌≡◌, arith}
use native.Mathlib.Nat.{div-mul-le_self, lt-div-mul-add}

-- `Math.round(value * 100) / 100` of the value n / d halalas: the floor of n / d + 1 / 2.
unfoldable pub round_currency : ℕ → ℕ → ℕ
round_currency n d = (2 * n + d) / (2 * d)

-- A whole number of halalas is left as it is.
pub round_currency-one : (n : ℕ) → round_currency n 1 ≡ n
unfolding round_currency
round_currency-one n = omega arith

-- The result is within half a halala, with the tie rounded up.
pub round_currency_bounds :
    (n d : ℕ)
    → 0 < d
    → (2 * (round_currency n d * d) ≤ 2 * n + d) × (2 * n < 2 * (round_currency n d * d) + d)
unfolding round_currency
round_currency_bounds n d h = (
  grind (arith, div-mul-le_self (2 * n + d) (2 * d)),
  grind (arith, lt-div-mul-add {a = 2 * n + d} {b = 2 * d}),
)

pub round_currency_mono : (m n d : ℕ) → m ≤ n → round_currency m d ≤ round_currency n d
unfolding round_currency
round_currency_mono m n d h =
    grind (arith, div-mul-le_self (2 * m + d) (2 * d), lt-div-mul-add {a = 2 * n + d} {b = 2 * d})
