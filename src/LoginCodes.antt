-- ===== src/LoginCodes.antt =====
-- src/modules/auth/services/login-abuse.service.ts and login-code.service.ts: signing in by a code that
-- is sent to a phone, with the counters that bound the guesses. The state is that of one phone. Redis
-- is a parameter, with what its commands promise; times are whole seconds, which are the steps of
-- `TTL`. Sessions, the audit and the sending of the code are left out.
pub mod Guesses
mod Tests
use ciro_fuel_backend.Prelude.{
  ℕ, ◌+◌, ◌*◌, ◌≤◌, ◌<◌, ◌≡◌, Bool, true, false, not, ◌&&◌, ◌==◌, Option, none, some, List, [], ◌∷◌,
  ◌++◌, ltb, leb, get_or, is_some, filter, if◌then◌else◌, max,
}
use ciro_fuel_backend.Order.{Text}
use ciro_fuel_backend.DeliveryCodes.{
  OtpRecord, OtpVerifyResult, arrival, match_, not_found, expired, locked_out, mismatch,
  verify_record,
}

-- A key of the store at a time: `GET`, `INCR`, `EXPIRE`, `TTL` (0 for its negative answers),
-- `SET key value EX seconds` and `DEL`.
pub record CounterStore : Type 1 where
  pub Key : Type 0
  pub get : Key → ℕ → Option ℕ
  pub incr : ℕ → Key → ℕ × Key
  pub expire : ℕ → ℕ → Key → Key
  pub ttl : Key → ℕ → ℕ
  pub set_ex : ℕ → ℕ → ℕ → Key → Key
  pub del : Key → Key
  pub incr_new : (now : ℕ) (k : Key) → get k now ≡ none → (incr now k).0 ≡ 1
  pub incr_next : (now n : ℕ) (k : Key) → get k now ≡ some n → (incr now k).0 ≡ n + 1
  -- A new counter that is given a time to live has its value until then.
  pub get-expire :
      (now seconds t : ℕ) (k : Key)
      → now ≤ t
      → t < now + seconds
      → get (expire now seconds (incr now k).1) t ≡ some (incr now k).0
  -- `INCR` keeps the time to live of a counter that is there.
  pub get-incr :
      (now t n : ℕ) (k : Key)
      → get k now ≡ some n
      → get k t ≡ some n
      → get (incr now k).1 t ≡ some (n + 1)
  pub ttl-set_ex :
      (value seconds now t : ℕ) (k : Key)
      → now ≤ t
      → t < now + seconds
      → 0 < ttl (set_ex value seconds now k) t

-- The configuration under `loginOtp`.
pub record LoginSettings : Type 0 where
  pub window_minutes : ℕ
  pub max_requests : ℕ
  pub challenge_after : ℕ
  pub block_minutes : ℕ
  pub fail_threshold : ℕ
  pub expiry_minutes : ℕ
  pub max_attempts : ℕ
  pub reveal_unknown_phone : Bool

-- `LoginCode`, of the phone.
pub record LoginCode : Type 0 where
  pub id : ℕ
  pub user_id : ℕ
  pub hash : Text
  pub salt : Text
  pub expires_at : ℕ
  pub attempts : ℕ
  pub consumed_at : Option ℕ

pub data LoginAnswer : Type 0 where
  rate_limited : (retry_after : ℕ) → LoginAnswer
  challenge_required phone_not_registered accepted invalid_code : LoginAnswer
  signed_in : (user : ℕ) → LoginAnswer

-- The newest code that is not consumed; codes are listed in the order of their creation.
abbrev pub newest_open : List LoginCode → Option LoginCode
newest_open [] = none
newest_open (c ∷ cs) =
    let rest = newest_open cs in
    if is_some rest then rest else if is_some c.consumed_at then none else some c

-- What `verify` reads of a code. A sign-in code has no purpose, and none is read.
abbrev pub otp_of : LoginCode → OtpRecord
otp_of c = record {
  purpose = arrival;
  hash = c.hash;
  salt = c.salt;
  expires_at = c.expires_at;
  attempts = c.attempts;
  created_at = 0;
  used_at = c.consumed_at;
}

abbrev pub otp_of_newest : List LoginCode → Option OtpRecord
otp_of_newest cs = elim (newest_open cs) [ none ↦ none | some c ↦ some (otp_of c) ]

abbrev pub change_code : ℕ → (LoginCode → LoginCode) → List LoginCode → List LoginCode
change_code id f [] = []
change_code id f (c ∷ cs) =
    let rest = change_code id f cs in if c.id == id then f c ∷ rest else c ∷ rest

abbrev pub change_newest : (LoginCode → LoginCode) → List LoginCode → List LoginCode
change_newest f cs = elim (newest_open cs) [ none ↦ cs | some c ↦ change_code c.id f cs ]

module _ (redis : CounterStore) (hash_otp : Text → Text → Text) (cfg : LoginSettings) where
  open redis use {Key, get, incr, expire, ttl, set_ex, del}

  pub record PhoneState : Type 0 where
    pub rate : Key
    pub fails : Key
    pub blocked : Key
    pub rl_hits : Key
    pub codes : List LoginCode

  -- `INCR`, with the time to live that the first one sets.
  unfoldable pub count_up : ℕ → ℕ → Key → ℕ × Key
  count_up now seconds k =
      let n : ℕ = (incr now k).0 in
      (n, if n == 1 then expire now seconds (incr now k).1 else (incr now k).1)

  -- `assertNotBlocked`: the refusal, if there is one.
  unfoldable pub assert_not_blocked : ℕ → PhoneState → Option LoginAnswer
  assert_not_blocked now s =
      if ltb 0 (ttl s.blocked now) then some (rate_limited (max 1 (ttl s.blocked now))) else none

  -- `registerCodeRequest`. The counters stay as they are when it throws.
  unfoldable pub register_code_request : ℕ → PhoneState → Option LoginAnswer × PhoneState
  register_code_request now s =
      let (n, k) = count_up now (cfg.window_minutes * 60) s.rate in
      if ltb cfg.max_requests n
      then (
        some (rate_limited (max 1 (ttl k now))),
        record s { rate = k; rl_hits = (count_up now (cfg.window_minutes * 60) s.rl_hits).1 },
      )
      else (none, record s { rate = k })

  unfoldable pub challenge_required_of : ℕ → PhoneState → Bool
  challenge_required_of now s = leb cfg.challenge_after (get_or (get s.rl_hits now) 0)

  unfoldable pub record_verification_failure : ℕ → PhoneState → PhoneState
  record_verification_failure now s =
      let (n, k) = count_up now (cfg.block_minutes * 60) s.fails in
      record s {
        fails = k;
        blocked =
            if leb cfg.fail_threshold n
            then set_ex 1 (cfg.block_minutes * 60) now s.blocked
            else s.blocked;
      }

  unfoldable pub clear_on_success : PhoneState → PhoneState
  clear_on_success s = record s {
    rate = del s.rate;
    fails = del s.fails;
    blocked = del s.blocked;
    rl_hits = del s.rl_hits;
  }

  -- The last part of `requestCode`: `holder` is the one active admin who has the phone.
  unfoldable pub issue_code : Option ℕ → ℕ → Text → Text → ℕ → PhoneState → LoginAnswer × PhoneState
  issue_code none id code salt now s =
      (if cfg.reveal_unknown_phone then phone_not_registered else accepted, s)
  issue_code (some user) id code salt now s = (
    accepted,
    record s {
      codes =
          filter (λ c. not ((c.user_id == user) && not (is_some c.consumed_at))) s.codes
          ++ record {
            id = id;
            user_id = user;
            hash = hash_otp code salt;
            salt = salt;
            expires_at = now * 1000 + cfg.expiry_minutes * 60000;
            attempts = 0;
            consumed_at = none;
          }
            ∷ [];
    },
  )

  -- `requestCode`. `solved` is the verdict on the challenge that came with the request, false
  -- without one; `code` and `salt` are drawn at random.
  unfoldable pub request_code :
      Bool → Option ℕ → ℕ → Text → Text → ℕ → PhoneState → LoginAnswer × PhoneState
  request_code solved holder id code salt now s = elim (assert_not_blocked now s) [
    | some refusal ↦ (refusal, s)
    | none ↦ elim (challenge_required_of now s) [
      | true ↦ if solved then issue_code holder id code salt now s else (challenge_required, s)
      | false ↦
          let registered : Option LoginAnswer × PhoneState = register_code_request now s in
          elim registered.0 [
            | some refusal ↦ (refusal, registered.1)
            | none ↦ issue_code holder id code salt now registered.1
          ]
    ]
  ]

  -- `verifyCode`.
  unfoldable pub verify_code : Text → ℕ → PhoneState → LoginAnswer × PhoneState
  verify_code code now s = elim (assert_not_blocked now s) [
    | some refusal ↦ (refusal, s)
    | none ↦
        elim (verify_record hash_otp (otp_of_newest s.codes) code cfg.max_attempts (now * 1000)) [
          | match_ ↦ (
            elim (newest_open s.codes) [ none ↦ invalid_code | some c ↦ signed_in c.user_id ],
            clear_on_success (record s {
              codes = change_newest (λ c. record c { consumed_at = some (now * 1000) }) s.codes;
            }),
          )
          | mismatch ↦ (
            invalid_code,
            record_verification_failure now (record s {
              codes = change_newest (λ c. record c { attempts = c.attempts + 1 }) s.codes;
            }),
          )
          | not_found ↦ (invalid_code, record_verification_failure now s)
          | expired ↦ (invalid_code, record_verification_failure now s)
          | locked_out ↦ (invalid_code, record_verification_failure now s)
        ]
  ]
