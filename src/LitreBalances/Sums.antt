-- ===== src/LitreBalances/Sums.antt =====
-- The document's invariant: the balance is the sum of the movements, a movement's `_id` is its
-- own, and `reconciledOrderIds` lists an order once for its one reconciliation movement.
use ciro_fuel_backend.Prelude.{
  ℕ, ◌+◌, ◌≡◌, ◌≢◌, refl, sym, ap, Bool, true, false, not, some, List, [], ◌∷◌, ◌++◌, count, filter,
  find?, arith, ◌==◌, if◌then◌else◌, inl, inr, Bool-cases,
}
use mathlib.Core.Option.{some-injective}
use ciro_fuel_backend.Prelude.Int.{ℤ, pos, ◌+ℤ◌, neg, int_laws}
use ciro_fuel_backend.LitreBalances.{LitreMovement}

abbrev pub sum_litres : List LitreMovement → ℤ
sum_litres [] = pos 0
sum_litres (m ∷ ms) = m.litres +ℤ sum_litres ms

pub sum_litres-append :
    (ms : List LitreMovement) (m : LitreMovement)
    → sum_litres (ms ++ m ∷ []) ≡ sum_litres ms +ℤ m.litres
sum_litres-append [] m = grind int_laws
sum_litres-append (n ∷ ms) m = grind (int_laws, sum_litres-append ms m)

abbrev pub IsFresh : ℕ → List LitreMovement → Type 0
IsFresh i [] = Unit
IsFresh i (m ∷ ms) = (i ≢ m.id) × IsFresh i ms

abbrev pub IsDistinct : List LitreMovement → Type 0
IsDistinct [] = Unit
IsDistinct (m ∷ ms) = IsFresh m.id ms × IsDistinct ms

IsFresh-append :
    (i : ℕ) (ms : List LitreMovement) (m : LitreMovement)
    → IsFresh i ms
    → i ≢ m.id
    → IsFresh i (ms ++ m ∷ [])
IsFresh-append i [] m f n = (n, tt)
IsFresh-append i (a ∷ ms) m f n = (f.0, IsFresh-append i ms m f.1 n)

pub IsDistinct-append :
    (ms : List LitreMovement) (m : LitreMovement)
    → IsDistinct ms
    → IsFresh m.id ms
    → IsDistinct (ms ++ m ∷ [])
IsDistinct-append [] m d f = (tt, tt)
IsDistinct-append (a ∷ ms) m d f =
    (IsFresh-append a.id ms m d.0 (λ e. f.0 (sym e)), IsDistinct-append ms m d.1 f.1)

-- `$pull` of a movement by its `_id`.
abbrev pub pull : ℕ → List LitreMovement → List LitreMovement
pull i ms = filter (λ m. not (m.id == i)) ms

pull-IsFresh : (i : ℕ) (ms : List LitreMovement) → IsFresh i ms → pull i ms ≡ ms
pull-IsFresh i [] f = refl
pull-IsFresh i (m ∷ ms) f = ground (arith, pull-IsFresh i ms f.1)

pub IsFresh-pull : (i j : ℕ) (ms : List LitreMovement) → IsFresh i ms → IsFresh i (pull j ms)
IsFresh-pull i j [] f = tt
IsFresh-pull i j (m ∷ ms) f = elim (Bool-cases (m.id == j)) [
  | inl e ↦ rw e (IsFresh-pull i j ms f.1)
  | inr e ↦ rw e (f.0, IsFresh-pull i j ms f.1)
]

pub IsDistinct-pull : (j : ℕ) (ms : List LitreMovement) → IsDistinct ms → IsDistinct (pull j ms)
IsDistinct-pull j [] d = tt
IsDistinct-pull j (m ∷ ms) d = elim (Bool-cases (m.id == j)) [
  | inl e ↦ rw e (IsDistinct-pull j ms d.1)
  | inr e ↦ rw e (IsFresh-pull m.id j ms d.0, IsDistinct-pull j ms d.1)
]

find-IsFresh :
    (p : LitreMovement → Bool) (ms : List LitreMovement) (a : LitreMovement) (i : ℕ)
    → find? p ms ≡ some a
    → IsFresh i ms
    → i ≢ a.id
find-IsFresh p [] a i h f = cc
find-IsFresh p (m ∷ ms) a i h f = ground (arith, find-IsFresh p ms a i)

pub find-satisfies :
    (p : LitreMovement → Bool) (ms : List LitreMovement) (a : LitreMovement)
    → find? p ms ≡ some a
    → p a ≡ true
find-satisfies p [] a h = cc
find-satisfies p (m ∷ ms) a h = ground (arith, find-satisfies p ms a)

pull_same :
    (i : ℕ) (m : LitreMovement) (ms : List LitreMovement)
    → IsFresh m.id ms
    → m.id ≡ i
    → pull i ms ≡ ms
pull_same i m ms f e = rw (sym e) (pull-IsFresh m.id ms f)

pub sum_litres-pull :
    (p : LitreMovement → Bool) (ms : List LitreMovement) (a : LitreMovement)
    → IsDistinct ms
    → find? p ms ≡ some a
    → sum_litres (pull a.id ms) ≡ sum_litres ms +ℤ neg a.litres
sum_litres-pull p [] a d h = cc
sum_litres-pull p (m ∷ ms) a d h = elim (Bool-cases (p m)) [
  | inl e ↦
      let same : m ≡ a = some-injective m a (rw e at h) in
      let here : (m.id == a.id) ≡ true = ground (arith, same) in
      rw (here, pull_same a.id m ms d.0 (ap (λ (x : LitreMovement). x.id) same)) grind
        (int_laws, same)
  | inr e ↦
      let h' : find? p ms ≡ some a = rw e at h in
      let there : (m.id == a.id) ≡ false = ground (arith, find-IsFresh p ms a m.id h' d.0) in
      rw (there) grind (int_laws, sum_litres-pull p ms a d.1 h')
]

pub count-pull :
    (p q : LitreMovement → Bool) (ms : List LitreMovement) (a : LitreMovement)
    → IsDistinct ms
    → find? p ms ≡ some a
    → count q (pull a.id ms) + (if q a then 1 else 0) ≡ count q ms
count-pull p q [] a d h = cc
count-pull p q (m ∷ ms) a d h =
    ground (arith, count-pull p q ms a d.1, pull-IsFresh m.id ms d.0, find-IsFresh p ms a m.id)
