-- ===== src/DeliveryCodes.antt =====
-- src/common/otp/otp-primitives.service.ts and src/modules/orders/services/otp.service.ts: the codes
-- that confirm a step of a delivery. The hash of a code under a salt is a parameter; random numbers
-- are arguments. The cache of the plain code, and its push to the client, are left out.
pub mod Lock
mod Tests
use ciro_fuel_backend.Prelude.{
  ℕ, ◌+◌, ◌*◌, ◌≡◌, Bool, true, false, not, ◌&&◌, Option, none, some, List, [], ◌∷◌, ◌++◌, any,
  find?, filter, is_some, ltb, leb, same_text, if◌then◌else◌,
}
use ciro_fuel_backend.Order.{Text}

pub data OtpPurpose : Type 0 where
  arrival delivery : OtpPurpose

pub record OtpRecord : Type 0 where
  pub purpose : OtpPurpose
  pub hash : Text
  pub salt : Text
  pub expires_at : ℕ
  pub attempts : ℕ
  pub created_at : ℕ
  pub used_at : Option ℕ

pub data OtpVerifyResult : Type 0 where
  match_ not_found expired locked_out mismatch : OtpVerifyResult

abbrev pub max_attempts : ℕ
max_attempts = 5

abbrev pub same_purpose : OtpPurpose → OtpPurpose → Bool
same_purpose arrival arrival = true
same_purpose delivery delivery = true
same_purpose _ _ = false

-- `o.purpose === purpose && !o.usedAt`.
abbrev pub is_unused : OtpPurpose → OtpRecord → Bool
is_unused purpose r = same_purpose r.purpose purpose && not (is_some r.used_at)

abbrev pub is_active : OtpPurpose → ℕ → OtpRecord → Bool
is_active purpose now r = is_unused purpose r && ltb now r.expires_at

-- A change of the first record that a test finds.
unfoldable pub modify_first {ℓ} : {A : Type ℓ} → (A → Bool) → (A → A) → List A → List A
modify_first p f [] = []
modify_first p f (x ∷ xs) = let rest = modify_first p f xs in if p x then f x ∷ xs else x ∷ rest

module _ (hash_otp : Text → Text → Text) where
  -- `OtpPrimitivesService.verify`.
  unfoldable pub verify_record : Option OtpRecord → Text → ℕ → ℕ → OtpVerifyResult
  verify_record none code attempts now = not_found
  verify_record (some r) code attempts now =
      if is_some r.used_at
      then not_found
      else if leb r.expires_at now
      then expired
      else if leb attempts r.attempts
      then locked_out
      else if same_text (hash_otp code r.salt) r.hash
      then match_
      else mismatch

  -- `OtpService.verify`, on the codes of an order: the verdict, and the codes after it.
  unfoldable pub verify : OtpPurpose → Text → ℕ → List OtpRecord → OtpVerifyResult × List OtpRecord
  verify purpose code now otps =
      let verdict : OtpVerifyResult =
        verify_record (find? (is_unused purpose) otps) code max_attempts now in
      elim verdict [
        | match_ ↦
            (match_, modify_first (is_unused purpose) (λ r. record r { used_at = some now }) otps)
        | mismatch ↦ (
          mismatch,
          modify_first (is_unused purpose) (λ r. record r { attempts = r.attempts + 1 }) otps,
        )
        | not_found ↦ (not_found, otps)
        | expired ↦ (expired, otps)
        | locked_out ↦ (locked_out, otps)
      ]

  -- `OtpService.issue`. `code` and `salt` are drawn at random, and a code lasts `minutes`.
  unfoldable pub issue : OtpPurpose → Text → Text → ℕ → ℕ → List OtpRecord → List OtpRecord
  issue purpose code salt minutes now otps =
      if any (is_active purpose now) otps
      then otps
      else filter (λ r. not (is_unused purpose r)) otps
        ++ record {
          purpose = purpose;
          hash = hash_otp code salt;
          salt = salt;
          expires_at = now + minutes * 60000;
          attempts = 0;
          created_at = now;
          used_at = none;
        }
          ∷ []

-- `invalidateActive`.
unfoldable pub invalidate_active : ℕ → List OtpRecord → List OtpRecord
invalidate_active now [] = []
invalidate_active now (r ∷ otps) =
    (if is_some r.used_at then r else record r { used_at = some now }) ∷ invalidate_active now otps
