-- ===== src/Pricing/Tests.antt =====
-- The quotes of src/modules/orders/services/pricing.service.ts at concrete rates: diesel at SAR 2.18
-- a litre, and later at 2.19. A token is the payload itself.
use ciro_fuel_backend.Prelude.{ℕ, ◌≡◌, refl, none, some, [], ◌∷◌, ok, arith}
use ciro_fuel_backend.Order.{diesel, same_fuel}
use ciro_fuel_backend.Companies.{Company, fuel, active, get_base_price, get_pricing_config}
use ciro_fuel_backend.Pricing.{
  Rates, current_rates, derive_quoted, price_without_quote, QuotePayload, quote_payload, value,
  TokenCodec, Quote, quote, redeem, redeem_payload, is_for_other_inputs, rates_changed,
}
use ciro_fuel_backend.Pricing.Quotes.{redeem-quote, redeem_live}

abbrev seller : ℕ → Company
seller price = record {
  id = 1;
  type = fuel;
  status = active;
  fuel_prices = record { fuel_type = diesel; base_price_per_liter = price } ∷ [];
  pricing_config = some (record { service_fee_percent = 250; tax_rate_percent = 1500 });
  commission_ceiling = none;
  parent_fuel_company_id = none;
  served_regions = [];
  delivery_rates = [];
}

abbrev rates_at : ℕ → Rates
rates_at price = record { unit_price = price; service_fee_percent = 250; tax_rate_percent = 1500 }

abbrev plain_codec : TokenCodec
plain_codec = record {
  Token = QuotePayload;
  encode = λ p. p;
  decode = λ p. value p;
  decode-encode = λ p. refl;
}

abbrev payload_at : ℕ → QuotePayload
payload_at price = quote_payload 1 diesel 20000000 (rates_at price) 1800000

abbrev quoted : Quote plain_codec
quoted = record {
  breakdown = derive_quoted (rates_at 21800) 20000000;
  quote_token = payload_at 21800;
  expires_at = 1800000;
}

redeem-quote_example :
    redeem plain_codec (seller 21800 ∷ []) 30 1700000 quoted.quote_token 1 diesel 20000000
    ≡ ok quoted.breakdown
unfolding quote current_rates get_base_price get_pricing_config same_fuel
redeem-quote_example =
    redeem-quote plain_codec (seller 21800 ∷ []) 30 0 1700000 1 diesel 20000000 {q = quoted} refl
      (omega arith)

redeem_live_example :
    price_without_quote (seller 21800 ∷ []) 1 diesel 20000000
    ≡ ok (derive_quoted (rates_at 21800) 20000000)
unfolding redeem redeem_payload quote_payload is_for_other_inputs rates_changed current_rates
    get_base_price get_pricing_config same_fuel
redeem_live_example =
    redeem_live plain_codec (seller 21800 ∷ []) 30 1700000 (payload_at 21800) 1 diesel 20000000
      {b = derive_quoted (rates_at 21800) 20000000} refl
