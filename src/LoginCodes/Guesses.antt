-- ===== src/LoginCodes/Guesses.antt =====
-- src/modules/auth/services/login-abuse.service.ts: how many codes can be guessed for a phone.
use ciro_fuel_backend.Prelude.{ℕ, ◌+◌, ◌≤◌, ◌<◌, ◌≡◌, some, List, [], ◌∷◌, ◌⊎◌}
use ciro_fuel_backend.Order.{Text}
use ciro_fuel_backend.LoginCodes.{
  CounterStore, LoginSettings, LoginCode, rate_limited, invalid_code, signed_in, PhoneState,
  record_verification_failure, verify_code,
}

-- A guess and its time.
pub record Guess : Type 0 where
  pub code : Text
  pub at : ℕ

-- The guesses are made one after another, from a time on and before another.
abbrev pub IsBetween : ℕ → ℕ → List Guess → Type 0
IsBetween now limit [] = Unit
IsBetween now limit (g ∷ gs) = (now ≤ g.at) × (g.at < limit) × IsBetween g.at limit gs

module _ (redis : CounterStore) (hash_otp : Text → Text → Text) (cfg : LoginSettings) where
  open redis use {Key, get, incr, expire, ttl, set_ex, del}

  -- The answers to guesses up to the one that signs in, if one does, so many of which are looked at: a
  -- guess is refused and changes nothing, it is wrong, or it signs in.
  abbrev pub Answers : List Guess → PhoneState redis hash_otp cfg → ℕ → Type 0
  Answers [] s n = n ≡ 0
  Answers (g ∷ gs) s n =
      ((r : ℕ) × (verify_code redis hash_otp cfg g.code g.at s ≡ (rate_limited r, s))
        × Answers gs s n)
      ⊎ (((u : ℕ) × ((verify_code redis hash_otp cfg g.code g.at s).0 ≡ signed_in u) × (n ≡ 1))
          ⊎ ((m : ℕ) × ((verify_code redis hash_otp cfg g.code g.at s).0 ≡ invalid_code)
              × (n ≡ m + 1)
              × Answers gs (verify_code redis hash_otp cfg g.code g.at s).1 m))

  -- What a guess comes to: it is refused, it signs in, or it is wrong and counted.
  GuessCases : Text → ℕ → PhoneState redis hash_otp cfg → Type 0
  GuessCases code t s =
      ((r : ℕ) × (verify_code redis hash_otp cfg code t s ≡ (rate_limited r, s)))
      ⊎ (((u : ℕ) × ((verify_code redis hash_otp cfg code t s).0 ≡ signed_in u)
            × (ttl s.blocked t ≡ 0))
          ⊎ ((cs : List LoginCode) × (verify_code redis hash_otp cfg code t s ≡ (
            invalid_code,
            record_verification_failure redis hash_otp cfg t (record s { codes = cs }),
          ))
              × (ttl s.blocked t ≡ 0)))

  -- From now on and until the limit, so many failures are counted, and the phone is blocked once they
  -- reach the threshold.
  record IsCounting (limit j now : ℕ) (s : PhoneState redis hash_otp cfg) : Type 0 where
    pub counted : (t : ℕ) → now ≤ t → t < limit → get s.fails t ≡ some j
    pub blocks : (t : ℕ) → cfg.fail_threshold ≤ j → now ≤ t → t < limit → 0 < ttl s.blocked t
