-- ===== src/Money/Tests.antt =====
-- The prices of src/common/pricing/derive-price-breakdown.ts at concrete orders: 20 000 litres at
-- SAR 2.18, a haul of SAR 500.005, a service fee of 2.5 % and a tax of 15 %.
use ciro_fuel_backend.Prelude.{◌≡◌, refl, some}
use ciro_fuel_backend.Money.{PriceBreakdown, derive_price_breakdown, round_currency}

abbrev priced : PriceBreakdown
priced = derive_price_breakdown 21800 20000000 (some 5000050) 250 1500

-- A half halala is rounded up.
haul_test : priced.delivery_fee ≡ some 50001
unfolding derive_price_breakdown round_currency
haul_test = refl
