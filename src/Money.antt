-- ===== src/Money.antt =====
-- src/common/constants/money.constants.ts and src/common/pricing/derive-price-breakdown.ts.
-- An amount of money is a number of halalas (SAR 0.01), the precision that `roundCurrency` leaves.
-- The doubles of the source are exact here: a price per litre is a number of SAR 0.0001, a
-- quantity a number of millilitres, and a percentage a number of hundredths of a percent.
mod Rounding
pub mod Components
mod Tests
unfoldable pub use Rounding.*
use ciro_fuel_backend.Prelude.{ℕ, ◌+◌, ◌*◌, Option, none, some, get_or}
use mathlib.Core.Option

-- `DerivedPriceBreakdown`, and `PriceBreakdown` less its currency and its time.
pub record PriceBreakdown : Type 0 where
  pub fuel_line_total : ℕ
  pub delivery_fee : Option ℕ
  pub service_fee : ℕ
  pub tax : ℕ
  pub total : ℕ
  pub unit_price : ℕ
  pub service_fee_percent : ℕ
  pub tax_rate_percent : ℕ

-- `delivery_fee` is exact to SAR 0.0001 before it is rounded.
unfoldable pub derive_price_breakdown : ℕ → ℕ → Option ℕ → ℕ → ℕ → PriceBreakdown
derive_price_breakdown unit_price quantity delivery_fee service_fee_percent tax_rate_percent =
    let fuel_line_total : ℕ = round_currency (unit_price * quantity) 100000 in
    let rounded_delivery_fee : Option ℕ = Option.map (λ fee. round_currency fee 100) delivery_fee in
    let service_fee : ℕ = round_currency (fuel_line_total * service_fee_percent) 10000 in
    let tax : ℕ =
      round_currency
        ((fuel_line_total + get_or rounded_delivery_fee 0 + service_fee) * tax_rate_percent)
        10000 in
    record {
      fuel_line_total = fuel_line_total;
      delivery_fee = rounded_delivery_fee;
      service_fee = service_fee;
      tax = tax;
      total =
          round_currency (fuel_line_total + get_or rounded_delivery_fee 0 + service_fee + tax) 1;
      unit_price = unit_price;
      service_fee_percent = service_fee_percent;
      tax_rate_percent = tax_rate_percent;
    }
