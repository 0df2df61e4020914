-- ===== src/Pricing.antt =====
-- src/modules/orders/services/pricing.service.ts.
-- `Buffer` and `JSON`, which write and read a token, are parameters.
pub mod Quotes
mod Tests
use ciro_fuel_backend.Prelude.{
  ℕ, ◌+◌, ◌*◌, ◌≡◌, Bool, false, not, ◌||◌, Option, none, some, List, find?, find_by_id, leb, is_id,
  Result, ok, err, ◌>>=◌, ◌>>◌, throw_if, or_throw, if◌then◌else◌,
}
use mathlib.Core.Option
use ciro_fuel_backend.Money.{PriceBreakdown, derive_price_breakdown}
use ciro_fuel_backend.Order.{FuelType, same_fuel}
use ciro_fuel_backend.Companies.{Company, PricingConfig, get_base_price, get_pricing_config}

pub data PricingError : Type 0 where
  pricing_not_configured quote_expired type_error : PricingError
  quote_stale : PriceBreakdown → PricingError

pub record Rates : Type 0 where
  pub unit_price : ℕ
  pub service_fee_percent : ℕ
  pub tax_rate_percent : ℕ

unfoldable pub current_rates : List Company → ℕ → FuelType → Result PricingError Rates
current_rates companies id fuel = do
  unit_price ← or_throw (get_base_price companies id fuel) pricing_not_configured
  pricing ← or_throw (get_pricing_config companies id) pricing_not_configured
  ok (record {
    unit_price = unit_price;
    service_fee_percent = pricing.service_fee_percent;
    tax_rate_percent = pricing.tax_rate_percent;
  })

-- `derive` with no transporter chosen yet, at the rates in force.
unfoldable pub derive_quoted : Rates → ℕ → PriceBreakdown
derive_quoted rates quantity =
    derive_price_breakdown rates.unit_price quantity none rates.service_fee_percent
      rates.tax_rate_percent

unfoldable pub price_without_quote :
    List Company → ℕ → FuelType → ℕ → Result PricingError PriceBreakdown
price_without_quote companies id fuel quantity = do
  rates ← current_rates companies id fuel
  ok (derive_quoted rates quantity)

-- The breakdown once the transport company is known, at the rates of the quote.
unfoldable pub price_with_transport : PriceBreakdown → ℕ → ℕ → PriceBreakdown
price_with_transport quoted quantity delivery_fee =
    derive_price_breakdown quoted.unit_price quantity (some delivery_fee) quoted.service_fee_percent
      quoted.tax_rate_percent

-- The fields of a parsed token, which is not trusted: a field that is missing or of another type is
-- `none`, and so is a time that is no date.
pub record QuotePayload : Type 0 where
  pub fuel_company_id : Option ℕ
  pub fuel_type : Option FuelType
  pub quantity_liters : Option ℕ
  pub unit_price : Option ℕ
  pub service_fee_percent : Option ℕ
  pub tax_rate_percent : Option ℕ
  pub expires_at : Option ℕ

-- The payload that a quote commits to.
unfoldable pub quote_payload : ℕ → FuelType → ℕ → Rates → ℕ → QuotePayload
quote_payload id fuel quantity rates expires_at = record {
  fuel_company_id = some id;
  fuel_type = some fuel;
  quantity_liters = some quantity;
  unit_price = some rates.unit_price;
  service_fee_percent = some rates.service_fee_percent;
  tax_rate_percent = some rates.tax_rate_percent;
  expires_at = some expires_at;
}

-- What `JSON.parse` makes of a token: it throws, or gives `null`, or a value with such fields.
pub data Parsed : Type 0 where
  malformed null_value : Parsed
  value : QuotePayload → Parsed

-- How a payload is written as a token, and how any text is read as one.
pub record TokenCodec : Type 1 where
  pub Token : Type 0
  pub encode : QuotePayload → Token
  pub decode : Token → Parsed
  pub decode-encode : (p : QuotePayload) → decode (encode p) ≡ value p

module _ (codec : TokenCodec) where
  open codec use {Token, encode, decode}

  pub record Quote : Type 0 where
    pub breakdown : PriceBreakdown
    pub quote_token : Token
    pub expires_at : ℕ

  -- `expiry_minutes` is the configured `order.quoteExpiryMinutes`.
  unfoldable pub quote : List Company → ℕ → ℕ → ℕ → FuelType → ℕ → Result PricingError Quote
  quote companies expiry_minutes now id fuel quantity = do
    rates ← current_rates companies id fuel
    ok (record {
      breakdown = derive_quoted rates quantity;
      quote_token = encode (quote_payload id fuel quantity rates (now + expiry_minutes * 60000));
      expires_at = now + expiry_minutes * 60000;
    })

  abbrev is_fuel : Option FuelType → FuelType → Bool
  is_fuel none g = false
  is_fuel (some f) g = same_fuel f g

  -- `new Date(payload.expiresAt) <= new Date()`, false of an invalid date.
  abbrev is_past : Option ℕ → ℕ → Bool
  is_past none now = false
  is_past (some t) now = leb t now

  -- The token was issued for another company, grade or quantity.
  unfoldable pub is_for_other_inputs : QuotePayload → ℕ → FuelType → ℕ → Bool
  is_for_other_inputs payload id fuel quantity =
      not (is_id payload.fuel_company_id id)
      || (not (is_fuel payload.fuel_type fuel) || not (is_id payload.quantity_liters quantity))

  unfoldable pub rates_changed : QuotePayload → Rates → Bool
  rates_changed payload rates =
      not (is_id payload.unit_price rates.unit_price)
      || (not (is_id payload.service_fee_percent rates.service_fee_percent)
          || not (is_id payload.tax_rate_percent rates.tax_rate_percent))

  -- `redeem`, once the token is decoded.
  unfoldable pub redeem_payload :
      List Company → ℕ → ℕ → QuotePayload → ℕ → FuelType → ℕ → Result PricingError PriceBreakdown
  redeem_payload companies expiry_minutes now payload id fuel quantity =
      if is_past payload.expires_at now
      then err quote_expired
      else if is_for_other_inputs payload id fuel quantity
      then (quote companies expiry_minutes now id fuel quantity >>= λ current.
          err (quote_stale current.breakdown))
      else (current_rates companies id fuel >>= λ rates.
          if rates_changed payload rates
          then err (quote_stale (derive_quoted rates quantity))
          else ok (derive_quoted rates quantity))

  -- Reading a field of `null` throws a `TypeError`.
  unfoldable pub redeem :
      List Company → ℕ → ℕ → Token → ℕ → FuelType → ℕ → Result PricingError PriceBreakdown
  redeem companies expiry_minutes now token id fuel quantity = elim (decode token) [
    | malformed ↦ err quote_expired
    | null_value ↦ err type_error
    | value payload ↦ redeem_payload companies expiry_minutes now payload id fuel quantity
  ]
