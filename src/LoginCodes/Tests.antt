-- ===== src/LoginCodes/Tests.antt =====
-- The guesses of src/modules/auth/services/login-abuse.service.ts for a phone that is blocked for an
-- hour after two wrong ones, with a key of the store as a value and the end of its time.
use ciro_fuel_backend.Prelude.{
  ℕ, ◌+◌, ◌-◌, ◌≤◌, ◌<◌, ◌≡◌, refl, Bool, true, false, Option, none, some, List, [], ◌∷◌, ltb,
  arith, if◌then◌else◌,
}
use ciro_fuel_backend.Order.{Text}
use ciro_fuel_backend.LoginCodes.{CounterStore, LoginSettings, PhoneState}
use ciro_fuel_backend.LoginCodes.Guesses.{Guess}

record Entry : Type 0 where
  pub value : ℕ
  pub until : Option ℕ

abbrev is_alive : ℕ → Option ℕ → Bool
is_alive now none = true
is_alive now (some u) = ltb now u

abbrev read : Option Entry → ℕ → Option ℕ
read none now = none
read (some e) now = if is_alive now e.until then some e.value else none

abbrev bump : ℕ → Option Entry → ℕ × Option Entry
bump now none = (1, some (record { value = 1; until = none }))
bump now (some e) =
    if is_alive now e.until
    then (e.value + 1, some (record e { value = e.value + 1 }))
    else (1, some (record { value = 1; until = none }))

abbrev let_live : ℕ → ℕ → Option Entry → Option Entry
let_live now seconds none = none
let_live now seconds (some e) = some (record e { until = some (now + seconds) })

abbrev left : Option ℕ → ℕ → ℕ
left none now = 0
left (some u) now = u - now

abbrev remaining : Option Entry → ℕ → ℕ
remaining none now = 0
remaining (some e) now = left e.until now

abbrev store : CounterStore
store = record {
  Key = Option Entry;
  get = read;
  incr = bump;
  expire = let_live;
  ttl = remaining;
  set_ex = λ value seconds now k. some (record { value = value; until = some (now + seconds) });
  del = λ k. none;
  incr_new = λ now k h. new k now h;
  incr_next = λ now n k h. next k now n h;
  get-expire = λ now seconds t k a b. lives k now seconds t a b;
  get-incr = λ now t n k h g. kept k now t n h g;
  ttl-set_ex = λ value seconds now t k a b. omega (arith, a, b);
}
  where
    new : (k : Option Entry) (now : ℕ) → read k now ≡ none → (bump now k).0 ≡ 1
    new none now h = refl
    new (some e) now h = ground (arith, h)

    next : (k : Option Entry) (now n : ℕ) → read k now ≡ some n → (bump now k).0 ≡ n + 1
    next none now n h = cc
    next (some e) now n h = ground (arith, h)

    lives :
        (k : Option Entry) (now seconds t : ℕ)
        → now ≤ t
        → t < now + seconds
        → read (let_live now seconds (bump now k).1) t ≡ some (bump now k).0
    lives none now seconds t a b = ground (arith, b)
    lives (some e) now seconds t a b = ground (arith, b)

    kept :
        (k : Option Entry) (now t n : ℕ)
        → read k now ≡ some n
        → read k t ≡ some n
        → read (bump now k).1 t ≡ some (n + 1)
    kept none now t n h g = cc
    kept (some e) now t n h g = ground (arith, h, g)

abbrev plain : Text → Text → Text
plain code salt = code

abbrev settings : LoginSettings
settings = record {
  window_minutes = 15;
  max_requests = 3;
  challenge_after = 2;
  block_minutes = 60;
  fail_threshold = 2;
  expiry_minutes = 5;
  max_attempts = 5;
  reveal_unknown_phone = false;
}

abbrev phone : PhoneState store plain settings
phone = record {
  rate = none;
  fails = none;
  blocked = none;
  rl_hits = none;
  codes =
      record {
        id = 1;
        user_id = 9;
        hash = 4 ∷ 7 ∷ [];
        salt = [];
        expires_at = 400000;
        attempts = 0;
        consumed_at = none;
      }
      ∷ [];
}

abbrev guess : ℕ → Text → Guess
guess t code = record { code = code; at = t }

abbrev guesses : List Guess
guesses = guess 100 (1 ∷ []) ∷ guess 110 (2 ∷ []) ∷ guess 120 (4 ∷ 7 ∷ []) ∷ []
