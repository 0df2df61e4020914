-- ===== src/Dispatch/Crewed.antt =====
-- src/modules/dispatch/services/dispatch.service.ts: the orders that their drivers hold, and a
-- change of one driver or of one order.
use ciro_fuel_backend.Prelude.{
  ℕ, ◌≡◌, ◌≢◌, refl, sym, ap, ◌∙◌, Bool, true, false, not, ◌||◌, ◌==◌, ==_iff, Option, none, some,
  List, find_by_id, find_by_id-replace_self, find_by_id-replace_ne, replace, arith, Bool-cases,
  Option-cases, inl, inr, ◌⊎◌,
}
use ciro_fuel_backend.Order.{Order, OrderStatus, assigned_to_driver, loading, in_transit, unloading}
use ciro_fuel_backend.OrderState.{order_id}
use ciro_fuel_backend.Dispatch.{Driver, driver_id, free_driver, holds, release_one}

-- A delivery that a driver is on.
abbrev pub is_engaged : OrderStatus → Bool
is_engaged assigned_to_driver = true
is_engaged loading = true
is_engaged in_transit = true
is_engaged unloading = true
is_engaged _ = false

-- The driver holds the order.
abbrev pub holds_for : ℕ → Option Driver → Bool
holds_for order none = false
holds_for order (some d) = holds d.active_order_id order

abbrev pub is_driven : List Driver → Option ℕ → ℕ → Bool
is_driven drivers none order = false
is_driven drivers (some d) order = holds_for order (find_by_id driver_id d drivers)

-- An order that is under way is held by its driver.
abbrev pub is_crewed : List Driver → Option Order → Bool
is_crewed drivers none = true
is_crewed drivers (some o) = not (is_engaged o.status) || is_driven drivers o.driver_id o.id

pub same_holder : (h : Option ℕ) (n m : ℕ) → holds h n ≡ true → holds h m ≡ true → n ≡ m
same_holder none n m a b = cc
same_holder (some k) n m a b = ground (arith, a, b)

pub same_driver :
    (drivers : List Driver) (d n m : ℕ)
    → is_driven drivers (some d) n ≡ true
    → is_driven drivers (some d) m ≡ true
    → n ≡ m
same_driver drivers d n m a b = elim (Option-cases (find_by_id driver_id d drivers)) [
  | inl e ↦ absurd (ground (arith, a, e))
  | inr (x, e) ↦ same_holder x.active_order_id n m (rw e at a) (rw e at b)
]

pub crewed_drives :
    (drivers : List Driver) (o : Order) (d : ℕ)
    → is_crewed drivers (some o) ≡ true
    → is_engaged o.status ≡ true
    → o.driver_id ≡ some d
    → is_driven drivers (some d) o.id ≡ true
crewed_drives drivers o d c e n = driven (is_engaged o.status) c e
  where
    driven :
        (b : Bool)
        → (not b || is_driven drivers o.driver_id o.id) ≡ true
        → b ≡ true
        → is_driven drivers (some d) o.id ≡ true
    driven b h t = ap (λ k. is_driven drivers k o.id) (sym n) ∙ ground (arith, h, t)

-- Two orders under way that name one driver are one order.
pub one_order :
    (drivers : List Driver) (o p : Order) (d : ℕ)
    → is_crewed drivers (some o) ≡ true
    → is_crewed drivers (some p) ≡ true
    → is_engaged o.status ≡ true
    → is_engaged p.status ≡ true
    → o.driver_id ≡ some d
    → p.driver_id ≡ some d
    → o.id ≡ p.id
one_order drivers o p d co cp eo ep do_ dp =
    same_driver drivers d o.id p.id (crewed_drives drivers o d co eo do_)
      (crewed_drives drivers p d cp ep dp)

-- What becomes of the other orders when one driver is replaced.
pub driven-replace :
    (drivers : List Driver) (k order : ℕ) (named : Option ℕ) (a b : Driver)
    → find_by_id driver_id k drivers ≡ some a
    → b.id ≡ k
    → holds a.active_order_id order ≡ false
    → is_driven drivers named order ≡ true
    → is_driven (replace driver_id k b drivers) named order ≡ true
driven-replace drivers k order none a b f e h d = cc
driven-replace drivers k order (some j) a b f e h d = elim (Bool-cases (j == k)) [
  | inl s ↦
      let same_id : j ≡ k = (==_iff j k).0 s in
      absurd (
        clash (holds a.active_order_id order) h
          (ap (holds_for order) (sym (ap (λ i. find_by_id driver_id i drivers) same_id ∙ f)) ∙ d))
  | inr n ↦
      ap (holds_for order)
        (find_by_id-replace_ne driver_id j k drivers b (λ s. ground (arith, s, n)) e)
      ∙ d
]
  where
    clash : (b : Bool) → b ≡ false → b ≡ true → ⊥
    clash b h e = cc

-- The other orders stay crewed when a driver who does not hold them is replaced.
pub crewed-replace :
    (drivers : List Driver) (k : ℕ) (x : Option Order) (a b : Driver)
    → find_by_id driver_id k drivers ≡ some a
    → b.id ≡ k
    → ((o : Order) → x ≡ some o → holds a.active_order_id o.id ≡ false)
    → is_crewed drivers x ≡ true
    → is_crewed (replace driver_id k b drivers) x ≡ true
crewed-replace drivers k none a b f e h c = refl
crewed-replace drivers k (some o) a b f e h c = elim (Bool-cases (is_engaged o.status)) [
  | inr n ↦ rw n refl
  | inl n ↦ rw n (driven-replace drivers k o.id o.driver_id a b f e (h o refl) (rw n at c))
]

pub write_one :
    (drivers : List Driver) (orders : List Order) (id : ℕ) (o p : Order)
    → find_by_id order_id id orders ≡ some o
    → p.id ≡ id
    → is_crewed drivers (some p) ≡ true
    → ((j : ℕ) → j ≢ id → is_crewed drivers (find_by_id order_id j orders) ≡ true)
    → (j : ℕ) → is_crewed drivers (find_by_id order_id j (replace order_id id p orders)) ≡ true
write_one drivers orders id o p found key self others j = elim (Bool-cases (j == id)) [
  | inl s ↦
      ap (is_crewed drivers) (
        ap (λ i. find_by_id order_id i (replace order_id id p orders)) ((==_iff j id).0 s)
        ∙ find_by_id-replace_self order_id id orders o p found key)
      ∙ self
  | inr n ↦
      let apart : j ≢ id = λ s. ground (arith, s, n) in
      ap (is_crewed drivers) (find_by_id-replace_ne order_id j id orders p apart key)
      ∙ others j apart
]

-- The drivers after a release.
pub release_cases :
    (l : List Driver) (o : Order)
    → (release_one driver_id (λ d. holds d.active_order_id o.id) free_driver o.driver_id l ≡ l)
      ⊎ ((d : Driver) × (k : ℕ) × (find_by_id driver_id k l ≡ some d)
          × (holds d.active_order_id o.id ≡ true)
          × (release_one driver_id (λ d. holds d.active_order_id o.id) free_driver o.driver_id l
              ≡ replace driver_id k (free_driver d) l))
unfolding release_one
release_cases l o = elim (Option-cases o.driver_id) [
  | inl n ↦ inl (rw n refl)
  | inr (k, n) ↦ elim (Option-cases (find_by_id driver_id k l)) [
    | inl e ↦ inl (rw (n, release_one, e) refl)
    | inr (d, e) ↦ elim (Bool-cases (holds d.active_order_id o.id)) [
      | inr f ↦ inl (rw (n, release_one, e, f) refl)
      | inl f ↦ inr (d, k, e, f, rw (n, release_one, e, f) refl)
    ]
  ]
]
