-- ===== src/Routing/Haul.antt =====
-- src/modules/orders/services/transport-pricing.service.ts: what a transport company charges for a
-- haul. Prices are in SAR 0.0001, the distance of a warehouse in millimetres, the fee in halalas.
use ciro_fuel_backend.Prelude.{
  ℕ, ◌*◌, ◌^◌, max, Bool, false, not, ◌&&◌, ◌==◌, Option, none, some, List, find?, find_by_id,
  get_or, is_id, is_some, Result, ok, ◌>>=◌, or_throw,
}
use ciro_fuel_backend.Money.{round_currency}
use ciro_fuel_backend.Companies.{Company, DeliveryRate, company_id}

-- `DeliveryTarget`, less its coordinates, which only the search for a warehouse reads.
pub record Area : Type 0 where
  pub region_code : ℕ
  pub governorate_code : Option ℕ

-- What `$geoNear` attaches to the warehouse that it finds.
pub record Warehouse : Type 0 where
  pub distance : Option ℕ

pub data HaulError : Type 0 where
  company_not_found transport_price_not_set no_warehouse_for_grade : HaulError

abbrev pub is_of_governorate : Area → DeliveryRate → Bool
is_of_governorate target r = elim target.governorate_code [
  | none ↦ false
  | some g ↦ (r.region_code == target.region_code) && is_id r.governorate_code g
]

abbrev pub is_of_region : Area → DeliveryRate → Bool
is_of_region target r = (r.region_code == target.region_code) && not (is_some r.governorate_code)

unfoldable pub rate_for : List DeliveryRate → Area → Option DeliveryRate
rate_for rates target = elim (find? (is_of_governorate target) rates) [
  | none ↦ find? (is_of_region target) rates
  | some r ↦ some r
]

unfoldable pub haul_fee : DeliveryRate → ℕ → ℕ
haul_fee rate distance =
    round_currency (max (rate.min_price * 10 ^ 6) (distance * rate.price_per_km)) (10 ^ 8)

-- `feeForCompany`. `warehouse` is what `findNearestSupplying` finds.
unfoldable pub fee_for_company : List Company → ℕ → Area → Option Warehouse → Result HaulError ℕ
fee_for_company companies id target warehouse = do
  company ← or_throw (find_by_id company_id id companies) company_not_found
  rate ← or_throw (rate_for company.delivery_rates target) transport_price_not_set
  supply ← or_throw warehouse no_warehouse_for_grade
  ok (haul_fee rate (get_or supply.distance 0))
