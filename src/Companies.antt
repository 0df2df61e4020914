-- ===== src/Companies.antt =====
-- src/modules/companies/companies.service.ts: the reads that the other services make of the
-- companies, and the company's own document, less its names, addresses and contacts.
use ciro_fuel_backend.Prelude.{
  ℕ, Bool, true, false, not, ◌&&◌, ◌==◌, Option, none, some, List, any, find?, filter, map,
  find_by_id, is_id,
}
use mathlib.Core.Option
use ciro_fuel_backend.Order.{FuelType, same_fuel}

pub record FuelPrice : Type 0 where
  pub fuel_type : FuelType
  pub base_price_per_liter : ℕ

pub record PricingConfig : Type 0 where
  pub service_fee_percent : ℕ
  pub tax_rate_percent : ℕ

-- A region and a governorate are the numbers of their codes, prices are in SAR 0.0001.
pub record DeliveryRate : Type 0 where
  pub region_code : ℕ
  pub governorate_code : Option ℕ
  pub price_per_km : ℕ
  pub min_price : ℕ

pub data CompanyType : Type 0 where
  fuel transport : CompanyType

pub data CompanyStatus : Type 0 where
  active suspended : CompanyStatus

pub record Company : Type 0 where
  pub id : ℕ
  pub type : CompanyType
  pub status : CompanyStatus
  pub fuel_prices : List FuelPrice
  pub pricing_config : Option PricingConfig
  pub commission_ceiling : Option ℕ
  pub parent_fuel_company_id : Option ℕ
  pub served_regions : List ℕ
  pub delivery_rates : List DeliveryRate

abbrev pub company_id : Company → ℕ
company_id c = c.id

-- `CompaniesService.getBasePrice`: `undefined` if the company is missing or sells no such fuel.
unfoldable pub get_base_price : List Company → ℕ → FuelType → Option ℕ
get_base_price companies id f = elim (find_by_id company_id id companies) [
  | none ↦ none
  | some company ↦
      Option.map (λ (p : FuelPrice). p.base_price_per_liter)
        (find? (λ p. same_fuel p.fuel_type f) company.fuel_prices)
]

-- `CompaniesService.getPricingConfig`.
unfoldable pub get_pricing_config : List Company → ℕ → Option PricingConfig
get_pricing_config companies id = elim (find_by_id company_id id companies) [
  | none ↦ none
  | some company ↦ company.pricing_config
]

-- `isActive`: false of a company that is missing.
abbrev pub is_status_active : CompanyStatus → Bool
is_status_active active = true
is_status_active suspended = false

abbrev pub is_fuel_type : CompanyType → Bool
is_fuel_type fuel = true
is_fuel_type transport = false

unfoldable pub is_active : List Company → ℕ → Bool
is_active companies id = elim (find_by_id company_id id companies) [
  | none ↦ false
  | some company ↦ is_status_active company.status
]

-- `fuelPrices: { $elemMatch: { fuelType } }`.
unfoldable pub sells : FuelType → Company → Bool
sells f company = any (λ p. same_fuel p.fuel_type f) company.fuel_prices

unfoldable pub is_active_seller : FuelType → ℕ → Company → Bool
is_active_seller f excluding company =
    (is_fuel_type company.type && is_status_active company.status)
    && (sells f company && not (company.id == excluding))

-- `findActiveFuelCompaniesSellingGrade`, as identifiers.
unfoldable pub find_active_fuel_companies_selling_grade : List Company → FuelType → ℕ → List ℕ
find_active_fuel_companies_selling_grade companies f excluding =
    map company_id (filter (is_active_seller f excluding) companies)

-- `findSuspendedFuelCompanyIds`.
unfoldable pub find_suspended_fuel_company_ids : List Company → List ℕ
find_suspended_fuel_company_ids companies =
    map company_id (filter (λ c. is_fuel_type c.type && not (is_status_active c.status)) companies)

abbrev is_transport_type : CompanyType → Bool
is_transport_type fuel = false
is_transport_type transport = true

-- The query of `findServingTransporters`.
unfoldable pub serves : ℕ → ℕ → Company → Bool
serves fuel_company region company =
    (is_transport_type company.type && is_id company.parent_fuel_company_id fuel_company)
    && (is_status_active company.status && any (λ r. r == region) company.served_regions)

unfoldable pub find_serving_transporters : List Company → ℕ → ℕ → List Company
find_serving_transporters companies fuel_company region =
    filter (serves fuel_company region) companies
