-- ===== src/Money/Components.antt =====
-- How the parts of a price add up.
use ciro_fuel_backend.Prelude.{ℕ, ◌+◌, ◌*◌, ◌≤◌, ◌<◌, ◌≡◌, Option, none, some, get_or, arith}
use native.Mathlib.Nat.{mul-le-mul_right}
use ciro_fuel_backend.Money.{
  PriceBreakdown, derive_price_breakdown, round_currency, round_currency-one, round_currency_bounds,
  round_currency_mono,
}

-- The sum that the buyer sees.
abbrev pub parts_sum : PriceBreakdown → ℕ
parts_sum b = b.fuel_line_total + get_or b.delivery_fee 0 + b.service_fee + b.tax

-- The total is exactly the sum of the rounded parts: the rounding of the total changes nothing.
pub total_is_parts_sum :
    (unit_price quantity : ℕ) (fee : Option ℕ) (service tax : ℕ)
    → (derive_price_breakdown unit_price quantity fee service tax).total
      ≡ parts_sum (derive_price_breakdown unit_price quantity fee service tax)
unfolding derive_price_breakdown
total_is_parts_sum unit_price quantity fee service tax = round_currency-one _

-- Half a halala either way of n / d.
abbrev pub IsNearest : ℕ → ℕ → ℕ → Type 0
IsNearest r n d = (2 * (r * d) ≤ 2 * n + d) × (2 * n < 2 * (r * d) + d)

abbrev pub taxed : PriceBreakdown → ℕ
taxed b = b.fuel_line_total + get_or b.delivery_fee 0 + b.service_fee

-- Each part is the halala nearest to its exact value: the fuel to price times quantity, the
-- service fee to its percentage of the fuel, and the tax to its percentage of the other parts.
pub derive_price_breakdown-IsNearest :
    (unit_price quantity : ℕ) (fee : Option ℕ) (service tax : ℕ)
    → let b : PriceBreakdown = derive_price_breakdown unit_price quantity fee service tax in
      IsNearest b.fuel_line_total (unit_price * quantity) 100000
      × (IsNearest b.service_fee (b.fuel_line_total * service) 10000
          × IsNearest b.tax (taxed b * tax) 10000)
unfolding derive_price_breakdown
derive_price_breakdown-IsNearest unit_price quantity fee service tax = (
  round_currency_bounds _ _ (omega arith),
  (round_currency_bounds _ _ (omega arith), round_currency_bounds _ _ (omega arith)),
)

tax_mono :
    (f h s t : ℕ) → round_currency ((f + 0 + s) * t) 10000 ≤ round_currency ((f + h + s) * t) 10000
tax_mono f h s t = round_currency_mono _ _ 10000 (mul-le-mul_right t (omega arith))

-- The haul comes on top: a quotation without it is never dearer than the price with it, and the
-- difference is at least the haul.
pub haul_adds :
    (unit_price quantity fee service tax : ℕ)
    → let quoted : PriceBreakdown = derive_price_breakdown unit_price quantity none service tax in
      let final : PriceBreakdown =
        derive_price_breakdown unit_price quantity (some fee) service tax in
      quoted.total + get_or final.delivery_fee 0 ≤ final.total
unfolding derive_price_breakdown
haul_adds unit_price quantity fee service tax =
    let f : ℕ = round_currency (unit_price * quantity) 100000 in
    let s : ℕ = round_currency (f * service) 10000 in
    let h : ℕ = round_currency fee 100 in
    omega (
      arith,
      round_currency-one (f + 0 + s + round_currency ((f + 0 + s) * tax) 10000),
      round_currency-one (f + h + s + round_currency ((f + h + s) * tax) 10000),
      tax_mono f h s tax,
    )
