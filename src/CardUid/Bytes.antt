-- ===== src/CardUid/Bytes.antt =====
-- The byte order of a card's identifier.
use ciro_fuel_backend.Prelude.{
  all, ℕ, ◌+◌, ◌≡◌, refl, ap, ◌∙◌, Bool, true, false, not, ◌&&◌, ◌||◌, Option, none, some, List, [],
  ◌∷◌, ◌++◌, length, ltb, any, any-append, same_text, same_text_refl, arith, inl, inr, Bool-cases,
  if◌then◌else◌,
}
use ciro_fuel_backend.Order.{Text}
use ciro_fuel_backend.CardUid.{
  is_hex, is_even, reverse_pairs, reverse_card_uid_bytes, with_raw, with_reversed, candidates_of,
  card_uid_lookup_candidates, normalize_card_uid,
}

reverse_pairs-reverse_pairs :
    (xs done ys : Text)
    → is_even xs ≡ true
    → reverse_pairs (reverse_pairs xs done) ys ≡ reverse_pairs done (xs ++ ys)
reverse_pairs-reverse_pairs [] done ys h = refl
reverse_pairs-reverse_pairs (a ∷ []) done ys h = cc
reverse_pairs-reverse_pairs (a ∷ b ∷ xs) done ys h =
    reverse_pairs-reverse_pairs xs (a ∷ b ∷ done) ys h

reverse_pairs-length :
    (xs done : Text) → is_even xs ≡ true → length (reverse_pairs xs done) ≡ length xs + length done
reverse_pairs-length [] done h = omega arith
reverse_pairs-length (a ∷ []) done h = cc
reverse_pairs-length (a ∷ b ∷ xs) done h = omega (arith, reverse_pairs-length xs (a ∷ b ∷ done) h)

reverse_pairs-is_even :
    (xs done : Text) → is_even xs ≡ true → is_even (reverse_pairs xs done) ≡ is_even done
reverse_pairs-is_even [] done h = refl
reverse_pairs-is_even (a ∷ []) done h = cc
reverse_pairs-is_even (a ∷ b ∷ xs) done h = reverse_pairs-is_even xs (a ∷ b ∷ done) h

reverse_pairs-all :
    (p : ℕ → Bool) (xs done : Text)
    → is_even xs ≡ true
    → all p (reverse_pairs xs done) ≡ (all p xs && all p done)
reverse_pairs-all p [] done h = refl
reverse_pairs-all p (a ∷ []) done h = cc
reverse_pairs-all p (a ∷ b ∷ xs) done h = ground (arith, reverse_pairs-all p xs (a ∷ b ∷ done) h)

append_nil : (xs : Text) → xs ++ [] ≡ xs
append_nil [] = refl
append_nil (x ∷ xs) = ap (λ t. x ∷ t) (append_nil xs)

guards :
    (l e a : Bool) (x v : Text)
    → (if l || (not e || not a) then none else some x) ≡ some v
    → (l ≡ false) × (e ≡ true) × (a ≡ true) × (v ≡ x)
guards l e a x v h = (ground arith, ground arith, ground arith, ground arith)

reverse_guards :
    (u v : Text)
    → reverse_card_uid_bytes u ≡ some v
    → (ltb (length u) 2 ≡ false)
      × (is_even u ≡ true)
      × (all is_hex u ≡ true)
      × (v ≡ reverse_pairs u [])
unfolding reverse_card_uid_bytes
reverse_guards u v h = guards (ltb (length u) 2) (is_even u) (all is_hex u) (reverse_pairs u []) v h

-- The two byte orders of an identifier lead back to each other, and are of the same length.
pub reverse_card_uid_bytes_twice :
    (u v : Text)
    → reverse_card_uid_bytes u ≡ some v
    → (reverse_card_uid_bytes v ≡ some u) × (length v ≡ length u)
unfolding reverse_card_uid_bytes
reverse_card_uid_bytes_twice u v h =
    let (l, e, a, r) = reverse_guards u v h in
    let lv : length (reverse_pairs u []) ≡ length u = omega (arith, reverse_pairs-length u [] e) in
    let ev : is_even (reverse_pairs u []) ≡ true = reverse_pairs-is_even u [] e in
    let av : all is_hex (reverse_pairs u []) ≡ true =
      ground (arith, reverse_pairs-all is_hex u [] e, a) in
    (
      rw (r, lv, l, ev, av) (ap some (reverse_pairs-reverse_pairs u [] [] e ∙ append_nil u)),
      rw r lv,
    )

with_reversed-any :
    (cs : List Text) (r : Text) → any (same_text r) (with_reversed cs (some r)) ≡ true
unfolding with_reversed
with_reversed-any cs r = elim (Bool-cases (any (same_text r) cs)) [
  | inl e ↦ rw (any, e) e
  | inr e ↦ rw (any, e) (ground (arith, any-append (same_text r) cs (r ∷ []), same_text_refl r))
]

with_reversed-head :
    (c : Text) (cs : List Text) (r : Option Text)
    → (rest : List Text) × (with_reversed (c ∷ cs) r ≡ c ∷ rest)
unfolding with_reversed
with_reversed-head c cs none = (cs, refl)
with_reversed-head c cs (some r) = elim (Bool-cases (any (same_text r) (c ∷ cs))) [
  | inl e ↦ (cs, rw e refl)
  | inr e ↦ (cs ++ r ∷ [], rw e refl)
]

with_raw-head : (c trimmed : Text) → (rest : List Text) × (with_raw c trimmed ≡ c ∷ rest)
unfolding with_raw
with_raw-head c [] = ([], refl)
with_raw-head c (t ∷ ts) = elim (Bool-cases (same_text (t ∷ ts) c)) [
  | inl e ↦ ([], rw e refl)
  | inr e ↦ ((t ∷ ts) ∷ [], rw e refl)
]

candidates_of-first :
    (u v trimmed : Text)
    → reverse_card_uid_bytes u ≡ some v
    → (rest : List Text) × (candidates_of u trimmed ≡ u ∷ rest)
      × (any (same_text v) (candidates_of u trimmed) ≡ true)
unfolding candidates_of reverse_card_uid_bytes
candidates_of-first [] v trimmed h = cc
candidates_of-first (c ∷ cs) v trimmed h =
    let u : Text = c ∷ cs in
    let (rest, e) = with_raw-head u trimmed in
    let (more, d) = with_reversed-head u rest (some v) in
    (more, rw (h, e) d, rw (any, h) (with_reversed-any (with_raw u trimmed) v))

-- For an identifier that has an opposite byte order a lookup tries the canonical form first, and the
-- form of the opposite byte order as well.
pub card_uid_lookup_candidates-reversed :
    (trim : Text → Text) (raw v : Text)
    → reverse_card_uid_bytes (normalize_card_uid raw) ≡ some v
    → (rest : List Text) × (card_uid_lookup_candidates trim raw ≡ normalize_card_uid raw ∷ rest)
      × (any (same_text v) (card_uid_lookup_candidates trim raw) ≡ true)
unfolding card_uid_lookup_candidates
card_uid_lookup_candidates-reversed trim raw v h =
    candidates_of-first (normalize_card_uid raw) v (trim raw) h
