-- ===== src/LitreBalances/Requests.antt =====
-- The requests that write a litre balance, and the invariant over any of them.
use ciro_fuel_backend.Prelude.{
  ℕ, refl, Option, none, some, [], ◌∷◌, find?, any, inl, inr, Bool-cases, Option-cases, Result, ok,
  err,
}
use ciro_fuel_backend.Prelude.Int.{ℤ, neg, eqb_ℤ}
use ciro_fuel_backend.Order.{Text}
use ciro_fuel_backend.LitreBalances.{
  LitreBalance, Stamp, draws, returns, round_litres, ReconciliationResult, order_drawdown,
  drawdown_returned, correction, record_reconciliation, reverse_prior, restate_reconciliation,
  draw_if_unchanged, litres_to_draw, return_to, return_drawdown, record_correction, LitreError,
}
use ciro_fuel_backend.LitreBalances.Sums.{IsFresh}
use ciro_fuel_backend.LitreBalances.Invariant.{
  IsValidDocument, movements_of, saved, record_reconciliation-IsValid, reverse_prior-IsValid,
  IsFresh-reverse_prior, push_movement-IsValid,
}

-- One request that writes the document: a reconciliation, a restatement, one attempt of a
-- drawdown at the balance that it read, a return, or an operator's correction.
pub data LitreOp : Type 0 where
  record_op restate_op : ℕ → ℕ → ℕ → Stamp → LitreOp
  draw_op : ℕ → ℤ → ℕ → Stamp → LitreOp
  return_op : ℕ → Stamp → LitreOp
  correct_op : ℤ → Text → Stamp → LitreOp

abbrev pub stamp_of : LitreOp → Stamp
stamp_of (record_op o d n s) = s
stamp_of (restate_op o d n s) = s
stamp_of (draw_op o a r s) = s
stamp_of (return_op o s) = s
stamp_of (correct_op q r s) = s

abbrev or_kept : Option LitreBalance → Option LitreBalance → Option LitreBalance
or_kept b none = b
or_kept b (some b') = some b'

abbrev corrected : Option LitreBalance → Result LitreError LitreBalance → Option LitreBalance
corrected b (ok b') = some b'
corrected b (err e) = b

abbrev pub perform : LitreOp → Option LitreBalance → Option LitreBalance
perform (record_op o d n s) b = saved b (record_reconciliation o d n s b)
perform (restate_op o d n s) b = saved b (restate_reconciliation o d n s b)
perform (draw_op o a r s) b = or_kept b (draw_if_unchanged o a (litres_to_draw a r) s b)
perform (return_op o s) b = return_drawdown o s b
perform (correct_op q r s) b = corrected b (record_correction q r s b)

-- An op that throws leaves the document, and a restatement throws only before it is committed.
restate-IsValid :
    (o ordered supplied : ℕ) (s : Stamp) (b : Option LitreBalance)
    → IsFresh s.movement_id (movements_of b)
    → IsValidDocument b
    → IsValidDocument (saved b (restate_reconciliation o ordered supplied s b))
unfolding restate_reconciliation
restate-IsValid o ordered supplied s b f v =
    go (record_reconciliation o ordered supplied s (reverse_prior o b)) (
      record_reconciliation-IsValid o ordered supplied s (reverse_prior o b)
        (IsFresh-reverse_prior o s.movement_id b f) (reverse_prior-IsValid o b v))
  where
    go :
        (x : Result LitreError (ReconciliationResult × Option LitreBalance))
        → IsValidDocument (saved (reverse_prior o b) x)
        → IsValidDocument (saved b x)
    go (ok (r, b')) w = w
    go (err e) w = v

draw-IsValid :
    (o : ℕ) (a q : ℤ) (s : Stamp) (b : Option LitreBalance)
    → IsFresh s.movement_id (movements_of b)
    → IsValidDocument b
    → IsValidDocument (or_kept b (draw_if_unchanged o a q s b))
unfolding draw_if_unchanged
draw-IsValid o a q s none f v = v
draw-IsValid o a q s (some b) f v = elim (Bool-cases (eqb_ℤ b.balance_litres a)) [
  | inl e ↦ rw e (push_movement-IsValid order_drawdown (neg q) (some o) none s b refl f v)
  | inr e ↦ rw e v
]

return-IsValid :
    (o : ℕ) (s : Stamp) (b : Option LitreBalance)
    → IsFresh s.movement_id (movements_of b)
    → IsValidDocument b
    → IsValidDocument (return_drawdown o s b)
unfolding return_drawdown return_to
return-IsValid o s none f v = v
return-IsValid o s (some b) f v = elim (Bool-cases (any (returns o) b.movements)) [
  | inl e ↦ rw e v
  | inr e ↦ elim (Option-cases (find? (draws o) b.movements)) [
    | inl d ↦ rw (e, d) v
    | inr (m, d) ↦
        rw (e, d)
          (push_movement-IsValid drawdown_returned (neg m.litres) (some o) none s b refl f v)
  ]
]

correct-IsValid :
    (q : ℤ) (r : Text) (s : Stamp) (b : Option LitreBalance)
    → IsFresh s.movement_id (movements_of b)
    → IsValidDocument b
    → IsValidDocument (corrected b (record_correction q r s b))
unfolding record_correction
correct-IsValid q [] s b f v = v
correct-IsValid q (c ∷ r) s none f v = v
correct-IsValid q (c ∷ r) s (some b) f v =
    push_movement-IsValid correction (round_litres q) none (some (c ∷ r)) s b refl f v

-- Whatever request comes next, with a new `_id` for the movement that it may push: the balance
-- stays the sum of the movements, and an order keeps at most one reconciliation.
pub perform-IsValid :
    (op : LitreOp) (b : Option LitreBalance)
    → IsFresh (stamp_of op).movement_id (movements_of b)
    → IsValidDocument b
    → IsValidDocument (perform op b)
perform-IsValid (record_op o d n s) b f v = record_reconciliation-IsValid o d n s b f v
perform-IsValid (restate_op o d n s) b f v = restate-IsValid o d n s b f v
perform-IsValid (draw_op o a r s) b f v = draw-IsValid o a (litres_to_draw a r) s b f v
perform-IsValid (return_op o s) b f v = return-IsValid o s b f v
perform-IsValid (correct_op q r s) b f v = correct-IsValid q r s b f v
