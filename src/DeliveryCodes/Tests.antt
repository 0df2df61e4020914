-- ===== src/DeliveryCodes/Tests.antt =====
-- The codes of src/modules/orders/services/otp.service.ts with the hash of a code the code itself:
-- code 4 7 was guessed wrong five times, and code 8 is open.
use ciro_fuel_backend.Prelude.{◌≡◌, refl, none, List, [], ◌∷◌, arith}
use ciro_fuel_backend.Order.{Text}
use ciro_fuel_backend.DeliveryCodes.{
  OtpRecord, arrival, delivery, locked_out, not_found, verify, verify_record,
}
use ciro_fuel_backend.DeliveryCodes.Lock.{
  CodeRequest, guess, reissue, perform_codes, lock_holds, code_used_once,
}

abbrev plain : Text → Text → Text
plain code salt = code

abbrev locked : OtpRecord
locked = record {
  purpose = delivery;
  hash = 4 ∷ 7 ∷ [];
  salt = [];
  expires_at = 1800;
  attempts = 5;
  created_at = 0;
  used_at = none;
}

abbrev open_code : OtpRecord
open_code = record locked { purpose = arrival; hash = 8 ∷ []; attempts = 1 }

abbrev codes : List OtpRecord
codes = open_code ∷ locked ∷ []

abbrev requests : List CodeRequest
requests = guess (4 ∷ 7 ∷ []) 100 ∷ reissue (9 ∷ []) [] 30 200 ∷ []

lock_holds_example :
    (perform_codes plain delivery requests codes ≡ codes)
    × (verify plain delivery (4 ∷ 7 ∷ []) 300 (perform_codes plain delivery requests codes)
        ≡ (locked_out, codes))
lock_holds_example =
    lock_holds plain delivery codes locked requests (4 ∷ 7 ∷ []) 300 refl (omega arith)
      (omega arith) (omega arith, (omega arith, tt))

code_used_once_example :
    verify plain arrival (8 ∷ []) 400 (verify plain arrival (8 ∷ []) 300 codes).1
    ≡ (not_found, (verify plain arrival (8 ∷ []) 300 codes).1)
unfolding verify verify_record
code_used_once_example =
    code_used_once plain arrival codes (8 ∷ []) (8 ∷ []) 300 400 (omega arith) refl
