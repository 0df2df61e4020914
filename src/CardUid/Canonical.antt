-- ===== src/CardUid/Canonical.antt =====
-- The canonical form of a card's identifier.
use ciro_fuel_backend.Prelude.{
  all, all-append, ℕ, zero, suc, ◌+◌, ◌/◌, ◌%◌, ◌≡◌, ◌<◌, refl, sym, ap, ◌∙◌, Bool, true, false,
  ◌&&◌, ◌||◌, [], ◌∷◌, length, length-append, leb, ◌==◌, arith, ◌⊎◌, inl, inr, Bool-cases,
  if◌then◌else◌,
}
use ciro_fuel_backend.Order.{Text}
use ciro_fuel_backend.CardUid.{
  is_digit, is_upper, is_alphanumeric, to_upper, strip, number_from, hex_digit, to_hex, max_uint32,
  canonical, normalize_card_uid,
}

abbrev is_plain : ℕ → Bool
is_plain c = is_digit c || is_upper c

plain_kept : (c : ℕ) → is_plain c ≡ true → (is_alphanumeric c ≡ true) × (to_upper c ≡ c)
plain_kept c h = (ground arith, ground arith)

upper_plain : (c : ℕ) → is_alphanumeric c ≡ true → is_plain (to_upper c) ≡ true
upper_plain c h = ground arith

strip-all : (raw : Text) → all is_plain (strip raw) ≡ true
unfolding strip
strip-all [] = refl
strip-all (c ∷ cs) = elim (Bool-cases (is_alphanumeric c)) [
  | inl e ↦ rw e (ground (arith, upper_plain c e, strip-all cs))
  | inr e ↦ rw e (strip-all cs)
]

strip-plain : (xs : Text) → all is_plain xs ≡ true → strip xs ≡ xs
unfolding strip
strip-plain [] h = refl
strip-plain (c ∷ cs) h =
    let here : is_plain c ≡ true = ground (arith, h) in
    let there : all is_plain cs ≡ true = ground (arith, h) in
    rw ((plain_kept c here).0, (plain_kept c here).1, strip-plain cs there) refl

hex_plain : (d : ℕ) → d < 16 → is_plain (hex_digit d) ≡ true
hex_plain d h = ground arith

to_hex-all : (w v : ℕ) → all is_plain (to_hex w v) ≡ true
unfolding to_hex
to_hex-all zero v = refl
to_hex-all (suc w) v = ground (
  arith,
  all-append is_plain (to_hex w (v / 16)) (hex_digit (v % 16) ∷ []),
  to_hex-all w (v / 16),
  hex_plain (v % 16) (omega arith),
)

to_hex-length : (w v : ℕ) → length (to_hex w v) ≡ w
unfolding to_hex
to_hex-length zero v = refl
to_hex-length (suc w) v =
    omega
      (arith, length-append (to_hex w (v / 16)) (hex_digit (v % 16) ∷ []), to_hex-length w (v / 16))

canonical-all : (s : Text) → all is_plain s ≡ true → all is_plain (canonical s) ≡ true
unfolding canonical
canonical-all s h = ground (arith, to_hex-all 8 (number_from 0 s), h)

not_ten : (s : Text) → length s ≡ 8 → canonical s ≡ s
unfolding canonical
not_ten s h = rw h refl

canonical-cases : (s : Text) → (canonical s ≡ to_hex 8 (number_from 0 s)) ⊎ (canonical s ≡ s)
unfolding canonical
canonical-cases s =
    go ((length s == 10) && (all is_digit s && leb (number_from 0 s) max_uint32)) _ _
  where
    go : (b : Bool) (x y : Text) → ((if b then x else y) ≡ x) ⊎ ((if b then x else y) ≡ y)
    go true x y = inl refl
    go false x y = inr refl

canonical_twice : (s : Text) → canonical (canonical s) ≡ canonical s
canonical_twice s = elim (canonical-cases s) [
  | inl e ↦
      ap canonical e
      ∙ not_ten (to_hex 8 (number_from 0 s)) (to_hex-length 8 (number_from 0 s))
      ∙ sym e
  | inr e ↦ ap canonical e
]

-- A canonical form is its own canonical form, so that it can be stored and normalized again.
pub normalize_card_uid_twice :
    (raw : Text) → normalize_card_uid (normalize_card_uid raw) ≡ normalize_card_uid raw
unfolding normalize_card_uid
normalize_card_uid_twice raw =
    ap canonical (strip-plain (canonical (strip raw)) (canonical-all (strip raw) (strip-all raw)))
    ∙ canonical_twice (strip raw)

abbrev to_lower : ℕ → ℕ
to_lower c = if is_upper c then c + 32 else c

lower_kept :
    (c : ℕ)
    → (is_alphanumeric (to_lower c) ≡ is_alphanumeric c) × (to_upper (to_lower c) ≡ to_upper c)
lower_kept c = (ground arith, ground arith)

-- Another reading of the same identifier: a letter in the other case, or a separator more.
pub data IsReading : Text → Text → Type 0 where
  ended : IsReading [] []
  same : (c : ℕ) {xs ys : Text} → IsReading xs ys → IsReading (c ∷ xs) (c ∷ ys)
  lowered : (c : ℕ) {xs ys : Text} → IsReading xs ys → IsReading (c ∷ xs) (to_lower c ∷ ys)
  separated :
      (c : ℕ) → is_alphanumeric c ≡ false → {xs ys : Text} → IsReading xs ys → IsReading xs (c ∷ ys)

strip-reading : {xs ys : Text} → IsReading xs ys → strip xs ≡ strip ys
unfolding strip
strip-reading ended = refl
strip-reading (same c r) = elim (Bool-cases (is_alphanumeric c)) [
  | inl e ↦ rw e (ap (λ t. to_upper c ∷ t) (strip-reading r))
  | inr e ↦ rw e (strip-reading r)
]
strip-reading (lowered c r) = elim (Bool-cases (is_alphanumeric c)) [
  | inl e ↦ rw ((lower_kept c).0, e, (lower_kept c).1) (ap (λ t. to_upper c ∷ t) (strip-reading r))
  | inr e ↦ rw ((lower_kept c).0, e) (strip-reading r)
]
strip-reading (separated c n r) = rw n (strip-reading r)

-- Two readings of an identifier that differ in separators and in the case of letters have the same
-- canonical form.
pub normalize_card_uid-reading :
    (xs ys : Text) → IsReading xs ys → normalize_card_uid xs ≡ normalize_card_uid ys
unfolding normalize_card_uid
normalize_card_uid-reading xs ys r = ap canonical (strip-reading r)
