-- ===== src/LitreBalances.antt =====
-- src/modules/litre-balances/litre-balances.service.ts and its schema. A unique index keeps one
-- document to a company, client and grade, and every method works on one: a state is that
-- document, or `none`. A balance is in whole millilitres, the precision that `roundLitres` leaves;
-- a quantity that comes in is in microlitres. A call that throws aborts its transaction, so an
-- error carries no state.
pub mod Rounding
mod Sums
pub mod Invariant
pub mod Requests
pub mod Reconciliation
pub mod Drawdown
mod Tests
unfoldable pub use Rounding.{round_litres}
use ciro_fuel_backend.Prelude.{
  ℕ, zero, suc, ◌+◌, ◌*◌, min, Bool, true, false, not, ◌&&◌, Option, none, some, List, [], ◌∷◌,
  ◌++◌, any, filter, find?, is_id, ◌==◌, Result, ok, err, if◌then◌else◌,
}
use ciro_fuel_backend.Prelude.Int.{ℤ, pos, pos_part, sub_ℕ, ◌+ℤ◌, ◌-ℤ◌, neg, ltb_ℤ, leb_ℤ, eqb_ℤ}
use ciro_fuel_backend.Order.{Text}

pub data LitreMovementKind : Type 0 where
  shortfall_credit excess_debit order_drawdown drawdown_returned correction : LitreMovementKind

pub record LitreMovement : Type 0 where
  pub id : ℕ
  pub kind : LitreMovementKind
  pub litres : ℤ
  pub order_id : Option ℕ
  pub reason : Option Text
  pub actor_id : ℕ
  pub at : ℕ

pub record LitreBalance : Type 0 where
  pub balance_litres : ℤ
  pub movements : List LitreMovement
  pub reconciled_order_ids : List ℕ

-- What every write of a movement takes from its caller and its surroundings: the new movement's
-- `_id`, the acting user and the time.
pub record Stamp : Type 0 where
  pub movement_id : ℕ
  pub actor_id : ℕ
  pub now : ℕ

pub data LitreError : Type 0 where
  supplier_invoice_already_recorded drawdown_conflict : LitreError
  correction_reason_required balance_not_found : LitreError

abbrev is_reconciliation : LitreMovementKind → Bool
is_reconciliation shortfall_credit = true
is_reconciliation excess_debit = true
is_reconciliation _ = false

abbrev is_drawdown : LitreMovementKind → Bool
is_drawdown order_drawdown = true
is_drawdown _ = false

abbrev is_return : LitreMovementKind → Bool
is_return drawdown_returned = true
is_return _ = false

-- The tests of `find` and `some` on the movements of one order.
abbrev pub reconciles : ℕ → LitreMovement → Bool
reconciles order m = is_id m.order_id order && is_reconciliation m.kind

abbrev pub draws : ℕ → LitreMovement → Bool
draws order m = is_id m.order_id order && is_drawdown m.kind

abbrev pub returns : ℕ → LitreMovement → Bool
returns order m = is_id m.order_id order && is_return m.kind

-- `getBalanceLitres`.
abbrev pub get_balance_litres : Option LitreBalance → ℤ
get_balance_litres none = pos 0
get_balance_litres (some b) = b.balance_litres

pub record ReconciliationResult : Type 0 where
  pub shortfall_litres : ℤ
  pub balance_litres : ℤ
  pub went_negative : Bool

-- `$setOnInsert`.
unfoldable pub ensure_exists : Option LitreBalance → LitreBalance
ensure_exists none = record { balance_litres = pos 0; movements = []; reconciled_order_ids = [] }
ensure_exists (some b) = b

-- `$inc` of the balance with `$push` of the movement.
unfoldable pub push_movement :
    LitreMovementKind → ℤ → Option ℕ → Option Text → Stamp → LitreBalance → LitreBalance
push_movement kind litres order reason stamp b = record b {
  balance_litres = b.balance_litres +ℤ litres;
  movements =
      b.movements
      ++ (record {
        id = stamp.movement_id;
        kind = kind;
        litres = litres;
        order_id = order;
        reason = reason;
        actor_id = stamp.actor_id;
        at = stamp.now;
      })
        ∷ [];
}

-- The kind of a movement for a shortfall that is not zero.
abbrev reconciliation_kind : ℤ → LitreMovementKind
reconciliation_kind shortfall = if ltb_ℤ (pos 0) shortfall then shortfall_credit else excess_debit

-- The second write of `recordReconciliation`, without its filter.
unfoldable pub reconcile : ℕ → ℤ → Stamp → LitreBalance → LitreBalance
unfolding push_movement
reconcile order shortfall stamp b =
    let pushed : LitreBalance =
      push_movement (reconciliation_kind shortfall) shortfall (some order) none stamp b in
    record pushed { reconciled_order_ids = b.reconciled_order_ids ++ order ∷ [] }

unfoldable pub record_reconciliation :
    ℕ
    → ℕ
    → ℕ
    → Stamp
    → Option LitreBalance
    → Result LitreError (ReconciliationResult × Option LitreBalance)
record_reconciliation order ordered supplied stamp b =
    let shortfall : ℤ = round_litres (sub_ℕ ordered supplied) in
    let existing : LitreBalance = ensure_exists b in
    let updated : LitreBalance = reconcile order shortfall stamp existing in
    if eqb_ℤ shortfall (pos 0)
    then ok (
      record {
        shortfall_litres = pos 0;
        balance_litres = get_balance_litres b;
        went_negative = false;
      },
      b,
    )
    else if any (λ i. i == order) existing.reconciled_order_ids
    then err supplier_invoice_already_recorded
    else ok (
      record {
        shortfall_litres = shortfall;
        balance_litres = updated.balance_litres;
        went_negative = ltb_ℤ updated.balance_litres (pos 0);
      },
      some updated,
    )

-- The reversal in `restateReconciliation`: `$inc`, and `$pull` of the movement and of the order.
unfoldable pub reverse_movement : ℕ → LitreMovement → LitreBalance → LitreBalance
reverse_movement order prior b = record {
  balance_litres = b.balance_litres +ℤ neg prior.litres;
  movements = filter (λ m. not (m.id == prior.id)) b.movements;
  reconciled_order_ids = filter (λ i. not (i == order)) b.reconciled_order_ids;
}

unfoldable pub reverse_prior : ℕ → Option LitreBalance → Option LitreBalance
reverse_prior order none = none
reverse_prior order (some b) = elim (find? (reconciles order) b.movements) [
  | none ↦ some b
  | some prior ↦ some (reverse_movement order prior b)
]

unfoldable pub restate_reconciliation :
    ℕ
    → ℕ
    → ℕ
    → Stamp
    → Option LitreBalance
    → Result LitreError (ReconciliationResult × Option LitreBalance)
restate_reconciliation order ordered supplied stamp b =
    record_reconciliation order ordered supplied stamp (reverse_prior order b)

pub record DrawdownResult : Type 0 where
  pub litres_drawn : ℤ
  pub balance_remaining : ℤ

abbrev pub max_drawdown_attempts : ℕ
max_drawdown_attempts = 5

-- `Math.max(a, 0)`.
abbrev pub at_least_zero : ℤ → ℤ
at_least_zero a = pos (pos_part a)

-- `roundLitres(Math.min(available, requested))`, where litres are available.
unfoldable pub litres_to_draw : ℤ → ℕ → ℤ
litres_to_draw available requested = round_litres (pos (min (pos_part available * 1000) requested))

abbrev pub draw : ℕ → ℤ → Stamp → LitreBalance → LitreBalance
draw order drawn stamp b = push_movement order_drawdown (neg drawn) (some order) none stamp b

-- The conditional write of one attempt: it matches if the balance is still the one that was read.
unfoldable pub draw_if_unchanged : ℕ → ℤ → ℤ → Stamp → Option LitreBalance → Option LitreBalance
draw_if_unchanged order available drawn stamp none = none
draw_if_unchanged order available drawn stamp (some b) =
    if eqb_ℤ b.balance_litres available then some (draw order drawn stamp b) else none

-- The loop of `drawdown`. `others i` is what other requests do to the document between the read
-- and the write of attempt `i`.
unfoldable pub drawdown_loop :
    ℕ
    → ℕ
    → (ℕ → Option LitreBalance → Option LitreBalance)
    → ℕ
    → ℕ
    → Stamp
    → Option LitreBalance
    → Result LitreError (DrawdownResult × Option LitreBalance)
drawdown_loop zero attempt others order requested stamp b = err drawdown_conflict
drawdown_loop (suc left) attempt others order requested stamp b =
    let available : ℤ = get_balance_litres b in
    let drawn : ℤ = litres_to_draw available requested in
    let b' : Option LitreBalance = others attempt b in
    let again : Result LitreError (DrawdownResult × Option LitreBalance) =
      drawdown_loop left (attempt + 1) others order requested stamp b' in
    if leb_ℤ available (pos 0)
    then ok (record { litres_drawn = pos 0; balance_remaining = at_least_zero available }, b)
    else if leb_ℤ drawn (pos 0)
    then ok (record { litres_drawn = pos 0; balance_remaining = available }, b)
    else elim (draw_if_unchanged order available drawn stamp b') [
      | none ↦ again
      | some updated ↦ ok (
        record { litres_drawn = drawn; balance_remaining = updated.balance_litres },
        some updated,
      )
    ]

unfoldable pub drawdown :
    (ℕ → Option LitreBalance → Option LitreBalance)
    → ℕ
    → ℕ
    → Stamp
    → Option LitreBalance
    → Result LitreError (DrawdownResult × Option LitreBalance)
drawdown others order requested stamp b =
    drawdown_loop max_drawdown_attempts 0 others order requested stamp b

-- `projectDrawdown`: available and requested are compared in microlitres.
unfoldable pub project_drawdown : ℕ → Option LitreBalance → DrawdownResult
project_drawdown requested b =
    let available : ℤ = get_balance_litres b in
    let drawn : ℤ = litres_to_draw available requested in
    record { litres_drawn = drawn; balance_remaining = available -ℤ drawn }

-- `returnDrawdown`, of a document that exists.
unfoldable pub return_to : ℕ → Stamp → LitreBalance → LitreBalance
return_to order stamp b =
    if any (returns order) b.movements then b else elim (find? (draws order) b.movements) [
      | none ↦ b
      | some drawn ↦ push_movement drawdown_returned (neg drawn.litres) (some order) none stamp b
    ]

unfoldable pub return_drawdown : ℕ → Stamp → Option LitreBalance → Option LitreBalance
return_drawdown order stamp none = none
return_drawdown order stamp (some b) = some (return_to order stamp b)

-- `recordCorrection`. `reason` is the trimmed text, and blank if it is empty.
unfoldable pub record_correction :
    ℤ → Text → Stamp → Option LitreBalance → Result LitreError LitreBalance
record_correction litres [] stamp b = err correction_reason_required
record_correction litres (c ∷ reason) stamp none = err balance_not_found
record_correction litres (c ∷ reason) stamp (some b) =
    ok (push_movement correction (round_litres litres) none (some (c ∷ reason)) stamp b)
