-- ===== src/Routing/Fees.antt =====
-- src/modules/orders/services/transport-pricing.service.ts: which rate a haul goes by, and the fee.
use ciro_fuel_backend.Prelude.{
  ℕ, sym, ap, ◌∙◌, leb, Bool-cases, ◌*◌, ◌^◌, ◌≤◌, ◌≡◌, refl, max, Bool, true, false, ◌⊎◌, inl, inr,
  Option, none, some, List, [], ◌∷◌, any, find?, find?-holds, find_by_id, get_or, ok, or_throw,
  or_throw-ok, arith, Option-cases, >>=-eq-ok,
}
use mathlib.Core.Option.{some-injective}
use ciro_fuel_backend.Money.{round_currency, round_currency_mono}
use ciro_fuel_backend.Companies.{Company, DeliveryRate, company_id}
use ciro_fuel_backend.Routing.Haul.{
  Area, Warehouse, company_not_found, transport_price_not_set, no_warehouse_for_grade,
  is_of_governorate, is_of_region, rate_for, haul_fee, fee_for_company,
}

find?-none : (p : DeliveryRate → Bool) (l : List DeliveryRate) → find? p l ≡ none → any p l ≡ false
find?-none p [] h = refl
find?-none p (r ∷ l) h = ground (arith, h, find?-none p l)

abbrev pub IsAmong : DeliveryRate → List DeliveryRate → Type 0
IsAmong r [] = ⊥
IsAmong r (q ∷ l) = (q ≡ r) ⊎ IsAmong r l

find?-IsAmong :
    (p : DeliveryRate → Bool) (l : List DeliveryRate) (r : DeliveryRate)
    → find? p l ≡ some r
    → IsAmong r l
find?-IsAmong p [] r h = cc
find?-IsAmong p (q ∷ l) r h = elim (Bool-cases (p q)) [
  | inl e ↦ inl (some-injective q r (rw e at h))
  | inr e ↦ inr (find?-IsAmong p l r (rw e at h))
]

-- The most specific rate of a list for an area: it names the area's governorate, or it names its
-- region alone where none of them names the governorate.
abbrev pub IsMostSpecific : List DeliveryRate → Area → DeliveryRate → Type 0
IsMostSpecific rates target r =
    ((g : ℕ) × (target.governorate_code ≡ some g)
      × (r.region_code ≡ target.region_code)
      × (r.governorate_code ≡ some g))
    ⊎ ((r.region_code ≡ target.region_code)
        × (r.governorate_code ≡ none)
        × (any (is_of_governorate target) rates ≡ false))

governorate_named :
    (target : Area) (r : DeliveryRate)
    → is_of_governorate target r ≡ true
    → (g : ℕ) × (target.governorate_code ≡ some g)
      × (r.region_code ≡ target.region_code)
      × (r.governorate_code ≡ some g)
governorate_named target r h = elim (Option-cases target.governorate_code) [
  | inl n ↦ absurd (ground (arith, h, n))
  | inr (g, n) ↦ elim (Option-cases r.governorate_code) [
    | inl m ↦ absurd (ground (arith, h, n, m))
    | inr (k, m) ↦ (g, n, ground (arith, h, n, m), ground (arith, h, n, m))
  ]
]

region_named :
    (target : Area) (r : DeliveryRate)
    → is_of_region target r ≡ true
    → (r.region_code ≡ target.region_code) × (r.governorate_code ≡ none)
region_named target r h = elim (Option-cases r.governorate_code) [
  | inl m ↦ (ground (arith, h, m), m)
  | inr (k, m) ↦ absurd (ground (arith, h, m))
]

rate_for-IsMostSpecific :
    (rates : List DeliveryRate) (target : Area) (r : DeliveryRate)
    → rate_for rates target ≡ some r
    → IsAmong r rates × IsMostSpecific rates target r
unfolding rate_for
rate_for-IsMostSpecific rates target r h =
    elim (Option-cases (find? (is_of_governorate target) rates)) [
      | inr (g, e) ↦
          let first : find? (is_of_governorate target) rates ≡ some r = ground (arith, h, e) in
          (
            find?-IsAmong (is_of_governorate target) rates r first,
            inl (governorate_named target r (find?-holds (is_of_governorate target) rates r first)),
          )
      | inl e ↦
          let first : find? (is_of_region target) rates ≡ some r = ground (arith, h, e) in
          let (region, alone) =
            region_named target r (find?-holds (is_of_region target) rates r first) in
          (
            find?-IsAmong (is_of_region target) rates r first,
            inr (region, alone, find?-none (is_of_governorate target) rates e),
          )
    ]

round_currency-max :
    (a b d : ℕ) → round_currency (max a b) d ≡ max (round_currency a d) (round_currency b d)
round_currency-max a b d = elim (Bool-cases (leb a b)) [
  | inl e ↦
      let below : a ≤ b = ground (arith, e) in
      let larger : max a b ≡ b = omega (arith, below) in
      ap (λ m. round_currency m d) larger ∙ omega (arith, round_currency_mono a b d below)
  | inr e ↦
      let below : b ≤ a = ground (arith, e) in
      let larger : max a b ≡ a = omega (arith, below) in
      ap (λ m. round_currency m d) larger ∙ omega (arith, round_currency_mono b a d below)
]

-- A fee that is quoted is that of one of the rates that the company has set: of the most specific for
-- the area, a rate for the governorate before one for its region alone. It is the larger one of the
-- rate's minimum price and its price of the distance, each to the nearest halala.
pub fee_for_company_charges :
    (companies : List Company) (id : ℕ) (target : Area) (warehouse : Option Warehouse) (fee : ℕ)
    → fee_for_company companies id target warehouse ≡ ok fee
    → (company : Company) × (r : DeliveryRate) × (w : Warehouse) × (find_by_id company_id id
          companies
        ≡ some company)
      × (warehouse ≡ some w)
      × IsAmong r company.delivery_rates
      × IsMostSpecific company.delivery_rates target r
      × (fee
          ≡ max
              (round_currency (r.min_price * 10 ^ 6) (10 ^ 8))
              (round_currency (get_or w.distance 0 * r.price_per_km) (10 ^ 8)))
unfolding fee_for_company haul_fee
fee_for_company_charges companies id target warehouse fee h =
    let (company, e, h1) =
      >>=-eq-ok (or_throw (find_by_id company_id id companies) company_not_found) _ h in
    let (r, f, h2) =
      >>=-eq-ok (or_throw (rate_for company.delivery_rates target) transport_price_not_set) _ h1 in
    let (w, g, h3) = >>=-eq-ok (or_throw warehouse no_warehouse_for_grade) _ h2 in
    let least : ℕ = r.min_price * 10 ^ 6 in
    let driven : ℕ = get_or w.distance 0 * r.price_per_km in
    let is_fee : round_currency (max least driven) (10 ^ 8) ≡ fee = ground (arith, h3) in
    let (among, specific) =
      rate_for-IsMostSpecific company.delivery_rates target r
        (or_throw-ok _ transport_price_not_set f) in
    (
      company,
      r,
      w,
      or_throw-ok _ company_not_found e,
      or_throw-ok _ no_warehouse_for_grade g,
      among,
      specific,
      sym is_fee ∙ round_currency-max least driven (10 ^ 8),
    )
