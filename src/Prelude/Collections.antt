-- ===== src/Prelude/Collections.antt =====
-- A collection of documents by their `_id`: `findById`, and the replacement of one document that a
-- conditional update makes. The database keeps at most one document to an id.
use Prim.Native.Nat.{ℕ}
use mathlib.Core.Path.{◌≡◌, refl, subst}
use mathlib.Core.Logic.{◌≢◌, inl, inr}
use mathlib.Core.Bool.{Bool}
use mathlib.Core.Option.{Option, none, some, some-injective}
use mathlib.Core.List.{List, [], ◌∷◌}
use native.Mathlib.Omega.{arith}
use ciro_fuel_backend.Prelude.Tests.{◌==◌, if◌then◌else◌, Bool-cases}
use ciro_fuel_backend.Prelude.Lists.{All}

module _ {ℓ} {A : Type ℓ} (key : A → ℕ) where
  abbrev pub find_by_id : ℕ → List A → Option A
  find_by_id k [] = none
  find_by_id k (x ∷ xs) = let rest = find_by_id k xs in if key x == k then some x else rest

  abbrev pub replace : ℕ → A → List A → List A
  replace k b [] = []
  replace k b (x ∷ xs) = let rest = replace k b xs in if key x == k then b ∷ xs else x ∷ rest

  -- `findOneAndUpdate({ _id: k, <p> }, <f>, { new: true })`: the new document and collection.
  abbrev pub find_one_and_update : ℕ → (A → Bool) → (A → A) → List A → Option (A × List A)
  find_one_and_update k p f xs = elim (find_by_id k xs) [
    | none ↦ none
    | some a ↦ if p a then some (f a, replace k (f a) xs) else none
  ]

  pub find_by_id-key : (k : ℕ) (xs : List A) (a : A) → find_by_id k xs ≡ some a → key a ≡ k
  find_by_id-key k [] a h = cc
  find_by_id-key k (x ∷ xs) a h = ground (arith, find_by_id-key k xs a)

  pub find_by_id-replace_self :
      (k : ℕ) (xs : List A) (a b : A)
      → find_by_id k xs ≡ some a
      → key b ≡ k
      → find_by_id k (replace k b xs) ≡ some b
  find_by_id-replace_self k [] a b h e = cc
  find_by_id-replace_self k (x ∷ xs) a b h e = ground (arith, find_by_id-replace_self k xs a b)

  pub find_by_id-replace_ne :
      (j k : ℕ) (xs : List A) (b : A)
      → j ≢ k
      → key b ≡ k
      → find_by_id j (replace k b xs) ≡ find_by_id j xs
  find_by_id-replace_ne j k [] b h e = refl
  find_by_id-replace_ne j k (x ∷ xs) b h e = ground (arith, find_by_id-replace_ne j k xs b h)

  pub All-find_by_id {κ} :
      (P : A → Type κ) (k : ℕ) (xs : List A) (a : A) → All P xs → find_by_id k xs ≡ some a → P a
  All-find_by_id P k [] a h e = cc
  All-find_by_id P k (x ∷ xs) a h e = elim (Bool-cases (key x == k)) [
    | inl here ↦ subst P (some-injective x a (rw here at e)) h.0
    | inr there ↦ All-find_by_id P k xs a h.1 (rw there at e)
  ]

  pub All-replace {κ} :
      (P : A → Type κ) (k : ℕ) (xs : List A) (b : A) → All P xs → P b → All P (replace k b xs)
  All-replace P k [] b h q = h
  All-replace P k (x ∷ xs) b h q = elim (Bool-cases (key x == k)) [
    | inl here ↦ rw here (q, h.1)
    | inr there ↦ rw there (h.0, All-replace P k xs b h.1 q)
  ]
