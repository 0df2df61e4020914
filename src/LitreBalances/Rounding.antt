-- ===== src/LitreBalances/Rounding.antt =====
-- `roundLitres`: `Math.round(value * 1000) / 1000`, from microlitres to millilitres. `Math.round`
-- is the floor of the value plus one half, for negative values too.
use ciro_fuel_backend.Prelude.{◌+◌, ◌/◌}
use ciro_fuel_backend.Prelude.Int.{ℤ, pos, negsuc, sub_ℕ}

unfoldable pub round_litres : ℤ → ℤ
round_litres (pos n) = pos ((n + 500) / 1000)
round_litres (negsuc n) = sub_ℕ 0 ((n + 500) / 1000)
