-- ===== src/DeliveryCodes/Lock.antt =====
-- src/modules/orders/services/otp.service.ts: wrong guesses lock a code, and a code is used once.
use ciro_fuel_backend.Prelude.{
  ℕ, ◌≤◌, ◌<◌, ◌≡◌, refl, ap, ◌∙◌, Bool, true, false, not, none, some, List, [], ◌∷◌, any, find?,
  find?-holds, filter, count, count-append, All, is_some, arith, Bool-cases, inl, inr,
}
use ciro_fuel_backend.Order.{Text}
use ciro_fuel_backend.DeliveryCodes.{
  OtpPurpose, OtpRecord, match_, not_found, locked_out, max_attempts, is_unused, is_active,
  modify_first, verify_record, verify, issue,
}

-- A request about the codes of an order, at a time.
pub data CodeRequest : Type 0 where
  guess : Text → ℕ → CodeRequest
  reissue : Text → Text → ℕ → ℕ → CodeRequest

abbrev pub time_of : CodeRequest → ℕ
time_of (guess code now) = now
time_of (reissue code salt minutes now) = now

find?-any :
    (p q : OtpRecord → Bool) (l : List OtpRecord) (r : OtpRecord)
    → find? p l ≡ some r
    → q r ≡ true
    → any q l ≡ true
find?-any p q [] r h e = cc
find?-any p q (x ∷ l) r h e = ground (arith, h, e, find?-any p q l r)

module _ (hash_otp : Text → Text → Text) (purpose : OtpPurpose) where
  unfoldable pub perform_code : CodeRequest → List OtpRecord → List OtpRecord
  perform_code (guess code now) otps = (verify hash_otp purpose code now otps).1
  perform_code (reissue code salt minutes now) otps =
      issue hash_otp purpose code salt minutes now otps

  unfoldable pub perform_codes : List CodeRequest → List OtpRecord → List OtpRecord
  perform_codes [] otps = otps
  perform_codes (r ∷ rs) otps = perform_codes rs (perform_code r otps)

  locked_verdict :
      (r : OtpRecord) (code : Text) (now : ℕ)
      → is_some r.used_at ≡ false
      → max_attempts ≤ r.attempts
      → now < r.expires_at
      → verify_record hash_otp (some r) code max_attempts now ≡ locked_out
  unfolding verify_record
  locked_verdict r code now u a e = ground (arith, u, a, e)

  locked_guess :
      (otps : List OtpRecord) (r : OtpRecord) (code : Text) (now : ℕ)
      → find? (is_unused purpose) otps ≡ some r
      → max_attempts ≤ r.attempts
      → now < r.expires_at
      → verify hash_otp purpose code now otps ≡ (locked_out, otps)
  unfolding verify
  locked_guess otps r code now f a e =
      let unused : is_some r.used_at ≡ false =
        ground (arith, find?-holds (is_unused purpose) otps r f) in
      rw (verify, f, locked_verdict r code now unused a e) refl

  locked_issue :
      (otps : List OtpRecord) (r : OtpRecord) (code salt : Text) (minutes now : ℕ)
      → find? (is_unused purpose) otps ≡ some r
      → now < r.expires_at
      → issue hash_otp purpose code salt minutes now otps ≡ otps
  unfolding issue
  locked_issue otps r code salt minutes now f e =
      let live : any (is_active purpose now) otps ≡ true =
        find?-any (is_unused purpose) (is_active purpose now) otps r f
          (ground (arith, find?-holds (is_unused purpose) otps r f, e)) in
      rw live refl

  same_codes :
      (otps otps' : List OtpRecord) (rs : List CodeRequest) (code : Text) (now : ℕ)
      → otps' ≡ otps
      → (perform_codes rs otps ≡ otps)
        × (verify hash_otp purpose code now (perform_codes rs otps) ≡ (locked_out, otps))
      → (perform_codes rs otps' ≡ otps)
        × (verify hash_otp purpose code now (perform_codes rs otps') ≡ (locked_out, otps))
  same_codes otps otps' rs code now e (f, g) =
      let step : perform_codes rs otps' ≡ perform_codes rs otps = ap (perform_codes rs) e in
      (step ∙ f, ap (verify hash_otp purpose code now) step ∙ g)

  -- Once five wrong guesses are counted against a code that has not expired, neither a guess nor the
  -- issue of a code changes the codes of the order any more until it expires, and every guess, the
  -- right one too, is told that the code is locked.
  pub lock_holds :
      (otps : List OtpRecord) (r : OtpRecord) (rs : List CodeRequest) (code : Text) (now : ℕ)
      → find? (is_unused purpose) otps ≡ some r
      → max_attempts ≤ r.attempts
      → now < r.expires_at
      → All (λ q. time_of q < r.expires_at) rs
      → (perform_codes rs otps ≡ otps)
        × (verify hash_otp purpose code now (perform_codes rs otps) ≡ (locked_out, otps))
  unfolding perform_codes perform_code
  lock_holds otps r [] code now f a e h = (refl, locked_guess otps r code now f a e)
  lock_holds otps r (guess c t ∷ rs) code now f a e h =
      same_codes otps (verify hash_otp purpose c t otps).1 rs code now
        (ap (λ p. p.1) (locked_guess otps r c t f a h.0)) (lock_holds otps r rs code now f a e h.1)
  lock_holds otps r (reissue c s m t ∷ rs) code now f a e h =
      same_codes otps (issue hash_otp purpose c s m t otps) rs code now
        (locked_issue otps r c s m t f h.0) (lock_holds otps r rs code now f a e h.1)

  none_counted :
      (otps : List OtpRecord)
      → count (is_unused purpose) otps ≤ 0
      → find? (is_unused purpose) otps ≡ none
  none_counted [] h = refl
  none_counted (x ∷ otps) h = ground (arith, h, none_counted otps)

  used_up :
      (otps : List OtpRecord) (at : ℕ)
      → count (is_unused purpose) otps ≤ 1
      → find?
          (is_unused purpose)
          (modify_first (is_unused purpose) (λ x. record x { used_at = some at }) otps)
        ≡ none
  unfolding modify_first
  used_up [] at c = refl
  used_up (x ∷ otps) at c = ground (arith, c, used_up otps at, none_counted otps)

  matched :
      (otps : List OtpRecord) (code : Text) (now : ℕ)
      → (verify hash_otp purpose code now otps).0 ≡ match_
      → (verify hash_otp purpose code now otps).1
        ≡ modify_first (is_unused purpose) (λ r. record r { used_at = some now }) otps
  unfolding verify
  matched otps code now h = ground (arith, h)

  none_open :
      (otps : List OtpRecord) (code : Text) (now : ℕ)
      → find? (is_unused purpose) otps ≡ none
      → verify hash_otp purpose code now otps ≡ (not_found, otps)
  unfolding verify verify_record
  none_open otps code now h = rw (verify, h) refl

  -- A code that is accepted is used up: where the order has one open code for a step, every later
  -- guess for the step finds none, until a code is issued again.
  pub code_used_once :
      (otps : List OtpRecord) (code code' : Text) (now now' : ℕ)
      → count (is_unused purpose) otps ≤ 1
      → (verify hash_otp purpose code now otps).0 ≡ match_
      → verify hash_otp purpose code' now' (verify hash_otp purpose code now otps).1
        ≡ (not_found, (verify hash_otp purpose code now otps).1)
  code_used_once otps code code' now now' c h =
      let spent : find? (is_unused purpose) (verify hash_otp purpose code now otps).1 ≡ none =
        ap (find? (is_unused purpose)) (matched otps code now h) ∙ used_up otps now c in
      none_open (verify hash_otp purpose code now otps).1 code' now' spent

  count-others :
      (otps : List OtpRecord)
      → count (is_unused purpose) (filter (λ r. not (is_unused purpose r)) otps) ≡ 0
  count-others [] = refl
  count-others (r ∷ otps) = ground (arith, count-others otps)

  -- The issue of a code leaves one open code for its step at most.
  pub issue-one :
      (otps : List OtpRecord) (code salt : Text) (minutes now : ℕ)
      → count (is_unused purpose) otps ≤ 1
      → count (is_unused purpose) (issue hash_otp purpose code salt minutes now otps) ≤ 1
  unfolding issue
  issue-one otps code salt minutes now c = elim (Bool-cases (any (is_active purpose now) otps)) [
    | inl e ↦ rw e c
    | inr e ↦
        rw
          (
            e,
            count-append (is_unused purpose) (filter (λ r. not (is_unused purpose r)) otps) _,
            count-others otps,
          )
          (ground arith)
  ]
