-- ===== src/CardUid/Tests.antt =====
-- The identifiers of src/common/utils/card-uid.util.ts at concrete readings of the card 04A1B2C3.
use ciro_fuel_backend.Prelude.{◌≡◌, refl, [], ◌∷◌}
use ciro_fuel_backend.Order.{Text}
use ciro_fuel_backend.CardUid.{strip, canonical, number_from, to_hex, normalize_card_uid}

-- `04:A1`, `04a1` and the bytes of `04A1`.
abbrev plain : Text
plain = 48 ∷ 52 ∷ 65 ∷ 49 ∷ []

abbrev rendered : Text
rendered = 48 ∷ 52 ∷ 58 ∷ 97 ∷ 49 ∷ []

abbrev swapped : Text
swapped = 65 ∷ 49 ∷ 48 ∷ 52 ∷ []

-- `0077705923`, the decimal reading of `04A1B2C3`.
abbrev decimal : Text
decimal = 48 ∷ 48 ∷ 55 ∷ 55 ∷ 55 ∷ 48 ∷ 53 ∷ 57 ∷ 50 ∷ 51 ∷ []

decimal_test : normalize_card_uid decimal ≡ 48 ∷ 52 ∷ 65 ∷ 49 ∷ 66 ∷ 50 ∷ 67 ∷ 51 ∷ []
unfolding normalize_card_uid strip canonical number_from to_hex
decimal_test = refl
