-- ===== src/LitreBalances/Tests.antt =====
-- The litre balance of src/modules/litre-balances/litre-balances.service.ts at concrete requests: a
-- document that owes a client 2 000 litres from order 5.
use ciro_fuel_backend.Prelude.{
  ℕ, zero, suc, ◌≡◌, refl, false, Option, none, some, [], ◌∷◌, Result, ok, err, arith,
}
use ciro_fuel_backend.Prelude.Int.{pos, ◌+ℤ◌, ◌-ℤ◌, sub_ℕ}
use ciro_fuel_backend.LitreBalances.{
  LitreError, LitreBalance, Stamp, shortfall_credit, round_litres, ReconciliationResult,
  DrawdownResult, get_balance_litres, record_reconciliation, restate_reconciliation, drawdown,
  drawdown_loop, draw_if_unchanged, litres_to_draw,
}
use ciro_fuel_backend.LitreBalances.Invariant.{IsValid, IsValidDocument}
use ciro_fuel_backend.LitreBalances.Requests.{draw_op, perform, perform-IsValid}
use ciro_fuel_backend.LitreBalances.Reconciliation.{restate_replaces, reconciled_litres}
use ciro_fuel_backend.LitreBalances.Drawdown.{IsWithin, drawdown_bounds}

abbrev stamp : ℕ → Stamp
stamp i = record { movement_id = i; actor_id = 3; now = 100 }

abbrev owed : LitreBalance
owed = record {
  balance_litres = pos 2000000;
  movements =
      (record {
        id = 1;
        kind = shortfall_credit;
        litres = pos 2000000;
        order_id = some 5;
        reason = none;
        actor_id = 3;
        at = 90;
      })
      ∷ [];
  reconciled_order_ids = 5 ∷ [];
}

owed-IsValid : IsValid owed
unfolding ◌+ℤ◌
owed-IsValid = (refl, ((tt, tt), λ o. ground arith))

perform-IsValid_example :
    IsValidDocument (perform (draw_op 6 (pos 2000000) 500000000 (stamp 2)) (some owed))
perform-IsValid_example =
    perform-IsValid (draw_op 6 (pos 2000000) 500000000 (stamp 2)) (some owed) ((λ e. cc), tt)
      owed-IsValid

abbrev saved_or :
    Result LitreError (ReconciliationResult × Option LitreBalance)
    → ReconciliationResult × Option LitreBalance
saved_or (ok r) = r
saved_or (err e) =
    (record { shortfall_litres = pos 0; balance_litres = pos 0; went_negative = false }, none)

abbrev recorded : ReconciliationResult × Option LitreBalance
recorded = saved_or (record_reconciliation 6 1000000000 990000000 (stamp 2) (some owed))

restate_replaces_example :
    (r : ReconciliationResult) × (b' : Option LitreBalance) × ((restate_reconciliation 5 3000000000
          2500000000
          (stamp 2)
          (some owed)
        ≡ ok (r, b'))
      × ((reconciled_litres 5 b' ≡ round_litres (sub_ℕ 3000000000 2500000000))
          × (get_balance_litres b'
              ≡ (pos 2000000 -ℤ reconciled_litres 5 (some owed))
                +ℤ round_litres (sub_ℕ 3000000000 2500000000))))
restate_replaces_example =
    restate_replaces 5 3000000000 2500000000 (stamp 2) (some owed) owed-IsValid

-- Another request corrects the balance between the first read and the first write.
abbrev others : ℕ → Option LitreBalance → Option LitreBalance
others zero b = some (record owed { balance_litres = pos 1500000 })
others (suc i) b = b

abbrev drawn_or :
    Result LitreError (DrawdownResult × Option LitreBalance) → DrawdownResult × Option LitreBalance
drawn_or (ok r) = r
drawn_or (err e) = (record { litres_drawn = pos 0; balance_remaining = pos 0 }, none)

abbrev contended : DrawdownResult × Option LitreBalance
contended = drawn_or (drawdown others 6 1800000000 (stamp 2) (some owed))

drawdown_bounds_example : IsWithin 1800000000 contended.0
unfolding drawdown drawdown_loop draw_if_unchanged litres_to_draw round_litres
drawdown_bounds_example =
    drawdown_bounds others 6 1800000000 (stamp 2) (some owed) contended.0 contended.1 refl

abbrev alone : DrawdownResult × Option LitreBalance
alone = drawn_or (drawdown (λ _ c. c) 6 500000000 (stamp 2) (some owed))
