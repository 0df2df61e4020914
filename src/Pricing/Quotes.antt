-- ===== src/Pricing/Quotes.antt =====
-- A quote and its redemption.
use ciro_fuel_backend.Prelude.{
  ℕ, ◌+◌, ◌*◌, ◌<◌, ◌≡◌, true, some, List, arith, Result, ok, err, ◌⊎◌, ◌>>=◌, refl,
}
use ciro_fuel_backend.Money.{PriceBreakdown}
use ciro_fuel_backend.Order.{FuelType, same_fuel_refl}
use ciro_fuel_backend.Companies.{Company}
use ciro_fuel_backend.Pricing.{
  PricingError, quote_stale, quote_payload, Rates, current_rates, derive_quoted,
  price_without_quote, QuotePayload, value, TokenCodec, Quote, quote, redeem, redeem_payload,
  is_for_other_inputs, rates_changed,
}

module _ (codec : TokenCodec) (companies : List Company) (minutes : ℕ) where
  open codec use {Token, encode, decode, decode-encode}

  redeem_issued :
      (now expires_at id : ℕ) (fuel : FuelType) (quantity : ℕ) (rates : Rates)
      → current_rates companies id fuel ≡ ok rates
      → now < expires_at
      → redeem codec companies minutes now
          (encode (quote_payload id fuel quantity rates expires_at))
          id
          fuel
          quantity
        ≡ ok (derive_quoted rates quantity)
  unfolding redeem redeem_payload is_for_other_inputs rates_changed quote_payload
  redeem_issued now expires_at id fuel quantity rates r live =
      ground (
        arith,
        decode-encode (quote_payload id fuel quantity rates expires_at),
        same_fuel_refl fuel,
      )

  -- A quote is redeemed at the quoted breakdown until it expires, while the rates stand.
  pub redeem-quote :
      (issued now id : ℕ) (fuel : FuelType) (quantity : ℕ) {q : Quote codec}
      → quote codec companies minutes issued id fuel quantity ≡ ok q
      → now < q.expires_at
      → redeem codec companies minutes now q.quote_token id fuel quantity ≡ ok q.breakdown
  unfolding quote
  redeem-quote issued now id fuel quantity {q} h live = go (current_rates companies id fuel) refl h
    where
      go :
          (x : Result PricingError Rates)
          → current_rates companies id fuel ≡ x
          → (x >>= λ rates. ok (record {
            breakdown = derive_quoted rates quantity;
            quote_token = encode (quote_payload id fuel quantity rates (issued + minutes * 60000));
            expires_at = issued + minutes * 60000;
          }))
            ≡ ok q
          → redeem codec companies minutes now q.quote_token id fuel quantity ≡ ok q.breakdown
      go (err e) _ f = cc
      go (ok rates) r f =
          ground (arith, redeem_issued now (issued + minutes * 60000) id fuel quantity rates r)

  -- Whatever the token holds, an order that it prices costs what the live rates make it.
  pub redeem_live :
      (now : ℕ) (token : Token) (id : ℕ) (fuel : FuelType) (quantity : ℕ) {b : PriceBreakdown}
      → redeem codec companies minutes now token id fuel quantity ≡ ok b
      → price_without_quote companies id fuel quantity ≡ ok b
  unfolding redeem redeem_payload price_without_quote
  redeem_live now token id fuel quantity h = ground arith

  -- A token that is still live but was issued for other inputs or at other rates is refused with
  -- the breakdown that the live rates give.
  pub redeem_stale :
      (now : ℕ) (token : Token) (id : ℕ) (fuel : FuelType) (quantity : ℕ) {p : QuotePayload} {t : ℕ}
      {rates : Rates}
      → decode token ≡ value p
      → p.expires_at ≡ some t
      → now < t
      → current_rates companies id fuel ≡ ok rates
      → (is_for_other_inputs codec p id fuel quantity ≡ true) ⊎ (rates_changed codec p rates ≡ true)
      → redeem codec companies minutes now token id fuel quantity
        ≡ err (quote_stale (derive_quoted rates quantity))
  unfolding redeem redeem_payload quote
  redeem_stale now token id fuel quantity d e l r c = ground arith
