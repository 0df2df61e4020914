-- ===== src/CardUid.antt =====
-- src/common/utils/card-uid.util.ts: the identifiers of NFC cards. A text is the list of its code
-- units.
pub mod Canonical
pub mod Bytes
mod Tests
use ciro_fuel_backend.Prelude.{
  all, ℕ, zero, suc, ◌+◌, ◌-◌, ◌*◌, ◌/◌, ◌%◌, Bool, true, false, not, ◌&&◌, ◌||◌, Option, none,
  some, List, [], ◌∷◌, ◌++◌, map, filter, length, leb, ltb, ◌==◌, same_text, any, if◌then◌else◌,
}
use ciro_fuel_backend.Order.{Text}

abbrev pub within : ℕ → ℕ → ℕ → Bool
within a b c = leb a c && leb c b

abbrev pub is_digit : ℕ → Bool
is_digit c = within 48 57 c

abbrev pub is_upper : ℕ → Bool
is_upper c = within 65 90 c

abbrev pub is_lower : ℕ → Bool
is_lower c = within 97 122 c

-- `[0-9a-zA-Z]`.
abbrev pub is_alphanumeric : ℕ → Bool
is_alphanumeric c = is_digit c || (is_upper c || is_lower c)

-- `toUpperCase`, of a code unit that is a letter or a digit.
abbrev pub to_upper : ℕ → ℕ
to_upper c = if is_lower c then c - 32 else c

-- `raw.replace(/[^0-9a-zA-Z]/g, '').toUpperCase()`.
unfoldable pub strip : Text → Text
strip raw = map to_upper (filter is_alphanumeric raw)

-- `Number` of a text of digits.
unfoldable pub number_from : ℕ → Text → ℕ
number_from n [] = n
number_from n (c ∷ cs) = number_from (n * 10 + (c - 48)) cs

abbrev pub hex_digit : ℕ → ℕ
hex_digit d = if ltb d 10 then 48 + d else 55 + d

-- `toString(16).toUpperCase().padStart(w, '0')`, of a number below 16 ^ w.
unfoldable pub to_hex : ℕ → ℕ → Text
to_hex zero v = []
to_hex (suc w) v = to_hex w (v / 16) ++ hex_digit (v % 16) ∷ []

abbrev pub max_uint32 : ℕ
max_uint32 = 4294967295

-- Ten digits are the decimal reading of a card. Its number is a safe integer, being below 10 ^ 10.
unfoldable pub canonical : Text → Text
canonical stripped =
    if (length stripped == 10) && (all is_digit stripped && leb (number_from 0 stripped) max_uint32)
    then to_hex 8 (number_from 0 stripped)
    else stripped

unfoldable pub normalize_card_uid : Text → Text
unfolding strip canonical
normalize_card_uid raw = canonical (strip raw)

-- `[0-9A-F]`.
abbrev pub is_hex : ℕ → Bool
is_hex c = is_digit c || within 65 70 c

abbrev pub is_even : Text → Bool
is_even [] = true
is_even (a ∷ []) = false
is_even (a ∷ b ∷ cs) = is_even cs

-- `match(/../g)`, `reverse` and `join`.
abbrev pub reverse_pairs : Text → Text → Text
reverse_pairs [] done = done
reverse_pairs (a ∷ []) done = done
reverse_pairs (a ∷ b ∷ cs) done = reverse_pairs cs (a ∷ b ∷ done)

unfoldable pub reverse_card_uid_bytes : Text → Option Text
reverse_card_uid_bytes uid =
    if ltb (length uid) 2 || (not (is_even uid) || not (all is_hex uid))
    then none
    else some (reverse_pairs uid [])

-- The candidates after the canonical form. `trimmed` is `raw.trim()`.
unfoldable pub with_raw : Text → Text → List Text
with_raw canonical_uid [] = canonical_uid ∷ []
with_raw canonical_uid (c ∷ cs) =
    if same_text (c ∷ cs) canonical_uid then canonical_uid ∷ [] else canonical_uid ∷ (c ∷ cs) ∷ []

unfoldable pub with_reversed : List Text → Option Text → List Text
with_reversed candidates none = candidates
with_reversed candidates (some r) =
    if any (same_text r) candidates then candidates else candidates ++ r ∷ []

unfoldable pub candidates_of : Text → Text → List Text
candidates_of [] trimmed = []
candidates_of (c ∷ cs) trimmed =
    with_reversed (with_raw (c ∷ cs) trimmed) (reverse_card_uid_bytes (c ∷ cs))

-- `trim` of the language is the parameter.
unfoldable pub card_uid_lookup_candidates : (Text → Text) → Text → List Text
card_uid_lookup_candidates trim raw = candidates_of (normalize_card_uid raw) (trim raw)
