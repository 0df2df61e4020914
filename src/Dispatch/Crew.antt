-- ===== src/Dispatch/Crew.antt =====
-- src/modules/dispatch/services/dispatch.service.ts: what the three bookings take, and what a
-- release does to it.
use ciro_fuel_backend.Prelude.{
  ℕ, ◌≤◌, ◌≡◌, sym, ap, subst, ◌∙◌, Bool, true, not, some, List, [], ◌∷◌, any, find_by_id,
  find_by_id-replace_self, replace, ltb, ok, throw_if, arith, Option-cases, inl, inr, >>=-eq-ok,
}
use ciro_fuel_backend.Order.{Order, same_fuel}
use ciro_fuel_backend.Dispatch.{
  Driver, Truck, Tank, Fleet, driver_id, truck_id, tank_id, is_free_driver, is_free_truck,
  is_free_tank, hold_driver, hold_truck, hold_tank, free_driver, free_truck, free_tank, release_one,
  DispatchError, tank_capacity_exceeded, tank_grade_unsupported, book_driver, book_truck, book_tank,
  book_all,
}

module _ {ℓ} {A : Type ℓ} (key : A → ℕ) where
  -- A document that is replaced and put back.
  replace_back :
      (k : ℕ) (l : List A) (a b : A)
      → find_by_id key k l ≡ some a
      → key b ≡ k
      → replace key k a (replace key k b l) ≡ l
  replace_back k [] a b h e = cc
  replace_back k (x ∷ l) a b h e = ground (arith, h, e, replace_back k l a b)

  -- What a release does to a document that has been booked.
  release_one-replace :
      (held : A → Bool) (free : A → A) (k : ℕ) (l : List A) (a b : A)
      → find_by_id key k l ≡ some a
      → key b ≡ k
      → held b ≡ true
      → free b ≡ a
      → release_one key held free (some k) (replace key k b l) ≡ l
  unfolding release_one
  release_one-replace held free k l a b h e f g =
      let found : find_by_id key k (replace key k b l) ≡ some b =
        find_by_id-replace_self key k l a b h e in
      rw (release_one, found, f, g) (replace_back k l a b h e)

-- A document that a booking took: it was free, and the collection has it held.
pub record IsBooked {ℓ} (A : Type ℓ) (key : A → ℕ) (is_free : A → Bool) (hold : A → A) (id : ℕ)
    (before after : List A) : Type ℓ where
  pub taken : A
  pub found : find_by_id key id before ≡ some taken
  pub was_free : is_free taken ≡ true
  pub written : after ≡ replace key id (hold taken) before

pub book_driver-IsBooked :
    (id order : ℕ) (l : List Driver) {l' : List Driver}
    → book_driver id order l ≡ ok l'
    → IsBooked Driver driver_id is_free_driver (hold_driver order) id l l'
unfolding book_driver
book_driver-IsBooked id order l h = elim (Option-cases (find_by_id driver_id id l)) [
  | inl n ↦ absurd (ground (arith, h, n))
  | inr (d, n) ↦ record {
    taken = d;
    found = n;
    was_free = ground (arith, h, n);
    written = ground (arith, h, n);
  }
]

pub book_truck-IsBooked :
    (id order : ℕ) (l : List Truck) {l' : List Truck}
    → book_truck id order l ≡ ok l'
    → IsBooked Truck truck_id is_free_truck (hold_truck order) id l l'
unfolding book_truck
book_truck-IsBooked id order l h = elim (Option-cases (find_by_id truck_id id l)) [
  | inl n ↦ absurd (ground (arith, h, n))
  | inr (t, n) ↦ record {
    taken = t;
    found = n;
    was_free = ground (arith, h, n);
    written = ground (arith, h, n);
  }
]

pub book_tank-IsBooked :
    (id order : ℕ) (l : List Tank) {t : Tank} {l' : List Tank}
    → book_tank id order l ≡ ok (t, l')
    → (b : IsBooked Tank tank_id is_free_tank (hold_tank order) id l l') × (t
        ≡ hold_tank order b.taken)
unfolding book_tank
book_tank-IsBooked id order l h = elim (Option-cases (find_by_id tank_id id l)) [
  | inl n ↦ absurd (ground (arith, h, n))
  | inr (t, n) ↦ (
    record {
      taken = t;
      found = n;
      was_free = ground (arith, h, n);
      written = ground (arith, h, n);
    },
    ground (arith, h, n),
  )
]

-- A driver, a truck and a tank that have been booked for an order, and the tank fits it.
pub record IsCrewed (driver truck tank : ℕ) (o : Order) (before after : Fleet) : Type 0 where
  pub with_driver :
      IsBooked Driver driver_id is_free_driver
        (hold_driver o.id)
        driver
        before.drivers
        after.drivers
  pub with_truck :
      IsBooked Truck truck_id is_free_truck (hold_truck o.id) truck before.trucks after.trucks
  pub with_tank : IsBooked Tank tank_id is_free_tank (hold_tank o.id) tank before.tanks after.tanks
  pub carries : o.quantity_liters ≤ with_tank.taken.max_capacity_liters
  pub permits : any (λ f. same_fuel f o.fuel_type) with_tank.taken.fuel_types ≡ true

pub book_all-IsCrewed :
    (driver truck tank : ℕ) (o : Order) (fleet : Fleet) {booked : Fleet}
    → book_all driver truck tank o fleet ≡ ok booked
    → IsCrewed driver truck tank o fleet booked × (booked.orders ≡ fleet.orders)
unfolding book_all hold_tank
book_all-IsCrewed driver truck tank o fleet {booked} h =
    let (ds, a, h1) = >>=-eq-ok (book_driver driver o.id fleet.drivers) _ h in
    let (ts, b, h2) = >>=-eq-ok (book_truck truck o.id fleet.trucks) _ h1 in
    let ((t, ks), c, h3) = >>=-eq-ok (book_tank tank o.id fleet.tanks) _ h2 in
    let (u, d, h4) =
      >>=-eq-ok (throw_if (ltb t.max_capacity_liters o.quantity_liters) tank_capacity_exceeded) _
        h3 in
    let (v, e, h5) =
      >>=-eq-ok
        (throw_if (not (any (λ f. same_fuel f o.fuel_type) t.fuel_types)) tank_grade_unsupported) _
        h4 in
    let (k, same_tank) = book_tank-IsBooked tank o.id fleet.tanks c in
    let made : record fleet { drivers = ds; trucks = ts; tanks = ks } ≡ booked =
      ground (arith, h5) in
    (
      subst (IsCrewed driver truck tank o fleet) made (record {
        with_driver = book_driver-IsBooked driver o.id fleet.drivers a;
        with_truck = book_truck-IsBooked truck o.id fleet.trucks b;
        with_tank = k;
        carries = omega (
          arith,
          fits t.max_capacity_liters o.quantity_liters tank_capacity_exceeded d,
          ap (λ (x : Tank). x.max_capacity_liters) same_tank,
        );
        permits =
            ap (λ (x : Tank). any (λ f. same_fuel f o.fuel_type) x.fuel_types) (sym same_tank)
            ∙ allowed (any (λ f. same_fuel f o.fuel_type) t.fuel_types) tank_grade_unsupported e;
      }),
      ap (λ (f : Fleet). f.orders) (sym made),
    )
  where
    fits : (a b : ℕ) (e : DispatchError) {u : Unit {0}} → throw_if (ltb a b) e ≡ ok u → b ≤ a
    fits a b e h = ground (arith, h)

    allowed : (b : Bool) (e : DispatchError) {u : Unit {0}} → throw_if (not b) e ≡ ok u → b ≡ true
    allowed b e h = ground (arith, h)

pub freed_driver :
    (order : ℕ) (d : Driver) → is_free_driver d ≡ true → free_driver (hold_driver order d) ≡ d
unfolding is_free_driver free_driver hold_driver
freed_driver order d h = ground (arith, h)

pub freed_truck :
    (order : ℕ) (t : Truck) → is_free_truck t ≡ true → free_truck (hold_truck order t) ≡ t
unfolding is_free_truck free_truck hold_truck
freed_truck order t h = ground (arith, h)

pub freed_tank : (order : ℕ) (t : Tank) → is_free_tank t ≡ true → free_tank (hold_tank order t) ≡ t
unfolding is_free_tank free_tank hold_tank
freed_tank order t h = ground (arith, h)

module _ {ℓ} {A : Type ℓ} (key : A → ℕ) (is_free held : A → Bool) (hold free : A → A) where
  pub let_go :
      (id : ℕ) (l l' : List A)
      → (b : IsBooked A key is_free hold id l l') → key (hold b.taken) ≡ id
      → held (hold b.taken) ≡ true
      → free (hold b.taken) ≡ b.taken
      → release_one key held free (some id) l' ≡ l
  let_go id l l' b k h f =
      ap (release_one key held free (some id)) b.written
      ∙ release_one-replace key held free id l b.taken (hold b.taken) b.found k h f
