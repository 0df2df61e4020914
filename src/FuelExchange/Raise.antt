-- ===== src/FuelExchange/Raise.antt =====
-- Whom an offer reaches.
use ciro_fuel_backend.Prelude.{
  ℕ, ◌≡◌, refl, Bool, true, false, not, ◌&&◌, ◌||◌, none, some, List, [], ◌∷◌, ◌++◌, any, length,
  arith, find_by_id, ◌==◌, ==_refl, ok,
}
use ciro_fuel_backend.Order.{FuelType}
use ciro_fuel_backend.Companies.{
  Company, is_status_active, is_fuel_type, is_active_seller,
  find_active_fuel_companies_selling_grade, find_suspended_fuel_company_ids, sells,
}
use ciro_fuel_backend.FuelExchange.{
  ExchangeOffer, Exchange, offer_key, is_visible, find_offer, create, is_incoming,
}

find-last :
    (offers : List ExchangeOffer) (o : ExchangeOffer)
    → find_by_id offer_key o.id offers ≡ none
    → find_by_id offer_key o.id (offers ++ o ∷ []) ≡ some o
find-last [] o h = rw (==_refl o.id) refl
find-last (p ∷ offers) o h = ground (arith, find-last offers o)

create-ok :
    (companies : List Company) (acting user : ℕ) (f : FuelType) (quantity delivery id now : ℕ)
    (x : Exchange) {o : ExchangeOffer} {told : List ℕ} {x' : Exchange}
    → create companies acting user f quantity delivery id now x ≡ ok (o, told, x')
    → (told ≡ find_active_fuel_companies_selling_grade companies f acting)
      × ((length told == 0) ≡ false)
      × (o.raised_by_company_id ≡ acting)
      × (o.open_to_market ≡ true)
      × (o.fuel_type ≡ f)
      × (o.id ≡ id)
      × (x'.offers ≡ x.offers ++ o ∷ [])
unfolding create
create-ok companies acting user f quantity delivery id now x h = (
  ground arith,
  ground arith,
  ground arith,
  ground arith,
  ground arith,
  ground arith,
  ground arith,
)

or_true : (b : Bool) → (b || true) ≡ true
or_true b = ground arith

find-market :
    (viewer : ℕ) (offers : List ExchangeOffer) (o : ExchangeOffer)
    → o.open_to_market ≡ true
    → find_by_id offer_key o.id offers ≡ none
    → find_offer viewer o.id (offers ++ o ∷ []) ≡ some o
unfolding find_offer is_visible
find-market viewer offers o m n = ground (arith, find-last offers o n, m)

incoming-told :
    (companies : List Company) (acting : ℕ) (f : FuelType) (o : ExchangeOffer) (c : Company)
    → o.raised_by_company_id ≡ acting
    → o.open_to_market ≡ true
    → o.fuel_type ≡ f
    → any (λ i. i == acting) (find_suspended_fuel_company_ids companies) ≡ false
    → is_fuel_type c.type ≡ true
    → is_status_active c.status ≡ true
    → is_incoming companies c o ≡ is_active_seller f acting c
unfolding is_incoming is_active_seller
incoming-told companies acting f o c r m g s t a =
    rw (r, m, g, s, t, a) (swapped (sells f c) acting c.id)
  where
    swapped : (b : Bool) (i j : ℕ) → (not (i == j) && b) ≡ (b && not (j == i))
    swapped b i j = ground arith

-- A raised offer reaches its audience and no one else: it can be read by every company, it awaits
-- the answer of an active fuel company exactly if that company is told of it, and some company is.
pub create_reaches :
    (companies : List Company) (acting user : ℕ) (f : FuelType) (quantity delivery id now : ℕ)
    (x : Exchange) (o : ExchangeOffer) (told : List ℕ) (x' : Exchange) (c : Company)
    → create companies acting user f quantity delivery id now x ≡ ok (o, told, x')
    → any (λ c. c == acting) (find_suspended_fuel_company_ids companies) ≡ false
    → find_by_id offer_key id x.offers ≡ none
    → is_fuel_type c.type ≡ true
    → is_status_active c.status ≡ true
    → (viewer : ℕ)
    → (find_offer viewer o.id x'.offers ≡ some o)
      × (told ≡ find_active_fuel_companies_selling_grade companies f acting)
      × ((length told == 0) ≡ false)
      × (is_incoming companies c o ≡ is_active_seller f acting c)
create_reaches companies acting user f quantity delivery id now x o told x' c h s n ct cs viewer =
    let (t, l, r, m, g, i, w) =
      create-ok companies acting user f quantity delivery id now x {o = o} {told = told} {x' = x'}
        h in
    (
      rw w (find-market viewer x.offers o m (rw i n)),
      t,
      l,
      incoming-told companies acting f o c r m g s ct cs,
    )
