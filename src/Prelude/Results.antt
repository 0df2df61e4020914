-- ===== src/Prelude/Results.antt =====
-- Calls that may throw: a value or the exception, with `do`.
use mathlib.Core.Path.{◌≡◌, refl}
use mathlib.Core.Logic.{◌⊎◌, inl, inr}
use mathlib.Core.Bool.{Bool, true, false}
use mathlib.Core.Option.{Option, none, some}
use native.Mathlib.Omega.{arith}

pub data Result {ℓ κ} (E : Type κ) (A : Type ℓ) : Type (ℓ ⊔ κ) where
  err : E → Result E A
  ok : A → Result E A

module _ {ℓ κ} {E : Type κ} {A : Type ℓ} where
  -- `if (!x) throw e`, and the value otherwise.
  abbrev pub or_throw : Option A → E → Result E A
  or_throw (some a) e = ok a
  or_throw none e = err e

  pub Result-cases : (r : Result E A) → ((e : E) × (r ≡ err e)) ⊎ ((a : A) × (r ≡ ok a))
  Result-cases (err e) = inl (e, refl)
  Result-cases (ok a) = inr (a, refl)

  pub or_throw-ok : (o : Option A) (e : E) {a : A} → or_throw o e ≡ ok a → o ≡ some a
  or_throw-ok none e h = cc
  or_throw-ok (some b) e h = ground (arith, h)

  pub ok-injective : (a b : A) → ◌≡◌ {A = Result E A} (ok a) (ok b) → a ≡ b
  ok-injective a b h = ground (arith, h)

  abbrev pub is_err : Result E A → Bool
  is_err (err e) = true
  is_err (ok a) = false

-- `if (c) throw e`.
abbrev pub throw_if {κ} : {E : Type κ} → Bool → E → Result E (Unit {0})
throw_if false thrown = ok tt
throw_if true thrown = err thrown

-- What is not thrown did not hold.
pub throw_if-ok {κ} :
    {E : Type κ} (c : Bool) (e : E) {u : Unit {0}} → throw_if c e ≡ ok u → c ≡ false
throw_if-ok true e h = cc
throw_if-ok false e h = refl

module _ {ℓ κ ρ} {E : Type κ} {A : Type ℓ} {B : Type ρ} where
  infixl 5 ◌>>=◌
  -- `await`: what follows sees the value, and an exception passes it over.
  abbrev pub ◌>>=◌ : Result E A → (A → Result E B) → Result E B
  err thrown >>= next = err thrown
  ok value >>= next = next value

  -- A chain that ends well has passed through its first call.
  pub >>=-eq-ok :
      (first : Result E A) (next : A → Result E B) {last : B}
      → (first >>= next) ≡ ok last
      → (a : A) × (first ≡ ok a) × (next a ≡ ok last)
  >>=-eq-ok (err thrown) next h = cc
  >>=-eq-ok (ok value) next h = (value, refl, h)

infixl 5 ◌>>◌
abbrev pub ◌>>◌ {κ ρ} : {E : Type κ} {B : Type ρ} → Result E (Unit {0}) → Result E B → Result E B
guard >> rest = guard >>= λ done. rest
