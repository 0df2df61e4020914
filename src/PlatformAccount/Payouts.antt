-- ===== src/PlatformAccount/Payouts.antt =====
-- Payouts of the cashback that the platform owes.
use ciro_fuel_backend.Prelude.{
  ℕ, ◌≡◌, ◌≢◌, refl, Bool, true, false, none, List, [], ◌∷◌, ◌++◌, any, any-append, ◌==◌,
  same_text_refl, ==_refl, arith, Result, ok, err, ◌>>◌, throw_if, if◌then◌else◌, ◌⊎◌, inl, inr,
  Bool-cases,
}
use ciro_fuel_backend.Prelude.Int.{ℤ, pos, ◌≤ℤ◌, ltb_ℤ, ◌-ℤ◌, int_laws}
use ciro_fuel_backend.PlatformAccount.{
  AccountMovement, cashback_credited, cashback_paid_out, AccountError, create_movement, insert,
  collides, get_cashback_owed, PayoutInput, payout_movement, record_cashback_payout,
  translate_duplicate, cashback_payout_exceeds_balance, cashback_payout_duplicate_reference,
}
use ciro_fuel_backend.PlatformAccount.Balances.{
  get_confirmed_balance-append, create_movement-ok, share,
}

-- What a payout that goes through has passed, and what it appends.
payout-ok :
    (id c : ℕ) (input : PayoutInput) (currency by now : ℕ) (l : List AccountMovement)
    {m : AccountMovement} {l' : List AccountMovement}
    → record_cashback_payout id c input currency by now l ≡ ok (m, l')
    → (ltb_ℤ (get_cashback_owed c l) (pos input.amount) ≡ false)
      × (l' ≡ l ++ payout_movement id c input currency by now ∷ [])
unfolding record_cashback_payout
payout-ok id c input currency by now l {m} {l'} h =
    go (ltb_ℤ (get_cashback_owed c l) (pos input.amount)) refl
      (create_movement none (payout_movement id c input currency by now) l) refl h
  where
    go :
        (b : Bool)
        → ltb_ℤ (get_cashback_owed c l) (pos input.amount) ≡ b
        → (x : Result AccountError (AccountMovement × List AccountMovement))
        → create_movement none (payout_movement id c input currency by now) l ≡ x
        → translate_duplicate (throw_if b cashback_payout_exceeds_balance >> x) ≡ ok (m, l')
        → (ltb_ℤ (get_cashback_owed c l) (pos input.amount) ≡ false)
          × (l' ≡ l ++ payout_movement id c input currency by now ∷ [])
    go true e x f g = cc
    go false e (err r) f g = ground arith
    go false e (ok (n, l2)) f g = (
      e,
      ground (arith, (create_movement-ok none (payout_movement id c input currency by now) l f).0),
    )

-- What a payout to company `d` takes from what company `c` is owed.
abbrev pub paid_to : ℕ → ℕ → ℕ → ℤ
paid_to d c amount = if d == c then pos amount else pos 0

owed-payout :
    (c id d : ℕ) (input : PayoutInput) (currency by now : ℕ) (l : List AccountMovement)
    → get_cashback_owed c (l ++ payout_movement id d input currency by now ∷ [])
      ≡ get_cashback_owed c l -ℤ paid_to d c input.amount
unfolding get_cashback_owed payout_movement
owed-payout c id d input currency by now l =
    let m : AccountMovement = payout_movement id d input currency by now in
    let paid : share c cashback_paid_out m ≡ paid_to d c input.amount = ground arith in
    let credited : share c cashback_credited m ≡ pos 0 = ground arith in
    rw
      (
        get_confirmed_balance-append c cashback_credited l m,
        get_confirmed_balance-append c cashback_paid_out l m,
      )
      (grind (int_laws, paid, credited))

-- A payout that goes through lowers what the company is owed by its amount and leaves what any
-- other company is owed, and the company was owed at least that much.
pub payout_lowers_owed :
    (id c : ℕ) (input : PayoutInput) (currency by now : ℕ) (l : List AccountMovement)
    (m : AccountMovement) (l' : List AccountMovement) (d : ℕ)
    → record_cashback_payout id c input currency by now l ≡ ok (m, l')
    → d ≢ c
    → (pos input.amount ≤ℤ get_cashback_owed c l)
      × ((get_cashback_owed c l' ≡ get_cashback_owed c l -ℤ pos input.amount)
          × (get_cashback_owed d l' ≡ get_cashback_owed d l))
payout_lowers_owed id c input currency by now l m l' d h n =
    let went : (ltb_ℤ (get_cashback_owed c l) (pos input.amount) ≡ false)
        × (l' ≡ l ++ payout_movement id c input currency by now ∷ []) =
      payout-ok id c input currency by now l h in
    (
      ground (arith, went.0),
      (
        rw (went.1) (ground (arith, owed-payout c id c input currency by now l)),
        rw (went.1, owed-payout d id c input currency by now l) other,
      ),
    )
  where
    other : get_cashback_owed d l -ℤ paid_to c d input.amount ≡ get_cashback_owed d l
    other = elim (Bool-cases (c == d)) [ inl e ↦ ground arith | inr e ↦ rw e (grind int_laws) ]

-- How a payout is refused.
abbrev pub IsRefusedPayout : Result AccountError (AccountMovement × List AccountMovement) → Type 0
IsRefusedPayout r =
    (r ≡ err cashback_payout_exceeds_balance) ⊎ (r ≡ err cashback_payout_duplicate_reference)

payout-collides :
    (id c : ℕ) (input : PayoutInput) (currency by now : ℕ) (l : List AccountMovement)
    → any (collides (payout_movement id c input currency by now)) l ≡ true
    → IsRefusedPayout (record_cashback_payout id c input currency by now l)
unfolding record_cashback_payout create_movement insert payout_movement
payout-collides id c input currency by now l h =
    elim (Bool-cases (ltb_ℤ (get_cashback_owed c l) (pos input.amount))) [
      | inl e ↦ inl (rw e refl)
      | inr e ↦ inr (rw (e, h) refl)
    ]

same_reference-collides :
    (id c : ℕ) (input : PayoutInput) (currency by now : ℕ) (l more : List AccountMovement) (id' : ℕ)
    (input' : PayoutInput) (currency' by' now' : ℕ)
    → input'.reference ≡ input.reference
    → any
        (collides (payout_movement id' c input' currency' by' now'))
        ((l ++ payout_movement id c input currency by now ∷ []) ++ more)
      ≡ true
unfolding collides payout_movement
same_reference-collides id c input currency by now l more id' input' currency' by' now' e =
    let n : AccountMovement = payout_movement id' c input' currency' by' now' in
    let p : AccountMovement = payout_movement id c input currency by now in
    let hit : collides n p ≡ true = rw (e, same_text_refl input.reference, ==_refl c) refl in
    ground
      (arith, hit, any-append (collides n) l (p ∷ []), any-append (collides n) (l ++ p ∷ []) more)

-- A reference pays once: once a payout has gone through, and whatever rows follow it, no other
-- payout to the company under its reference does.
pub payout_reference_once :
    (id c : ℕ) (input : PayoutInput) (currency by now : ℕ) (l : List AccountMovement)
    (m : AccountMovement) (l' more : List AccountMovement) (id' : ℕ) (input' : PayoutInput)
    (currency' by' now' : ℕ)
    → record_cashback_payout id c input currency by now l ≡ ok (m, l')
    → input'.reference ≡ input.reference
    → IsRefusedPayout (record_cashback_payout id' c input' currency' by' now' (l' ++ more))
payout_reference_once id c input currency by now l m l' more id' input' currency' by' now' h e =
    payout-collides id' c input' currency' by' now' (l' ++ more) (
      rw ((payout-ok id c input currency by now l h).1)
        (same_reference-collides id c input currency by now l more id' input' currency' by' now' e))
