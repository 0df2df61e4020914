-- ===== src/LitreBalances/Invariant.antt =====
-- What every write of a litre balance preserves.
use ciro_fuel_backend.Prelude.{
  ℕ, ◌≤◌, ◌≡◌, refl, Bool, true, false, not, Option, none, some, List, [], ◌∷◌, count, count-append,
  filter, find?, any, arith, ◌==◌, if◌then◌else◌, inl, inr, Bool-cases, Option-cases, Result, ok,
  err,
}
use ciro_fuel_backend.Prelude.Int.{ℤ, pos, eqb_ℤ, sub_ℕ}
use ciro_fuel_backend.Order.{Text}
use ciro_fuel_backend.LitreBalances.{
  LitreMovementKind, LitreMovement, LitreBalance, Stamp, reconciles, push_movement,
  reverse_movement, round_litres, ReconciliationResult, ensure_exists, reconcile,
  reconciliation_kind, record_reconciliation, reverse_prior, LitreError, is_reconciliation,
}
use ciro_fuel_backend.LitreBalances.Sums.{
  sum_litres, sum_litres-append, IsFresh, IsDistinct, IsDistinct-append, IsDistinct-pull,
  sum_litres-pull, count-pull, find-satisfies, IsFresh-pull,
}

abbrev pub is_order : ℕ → ℕ → Bool
is_order order i = i == order

-- One entry of `reconciledOrderIds` and one reconciliation movement, or neither.
abbrev pub IsListedOnce : LitreBalance → ℕ → Type 0
IsListedOnce b o =
    (count (reconciles o) b.movements ≡ count (is_order o) b.reconciled_order_ids)
    × (count (reconciles o) b.movements ≤ 1)

abbrev pub IsValid : LitreBalance → Type 0
IsValid b =
    (b.balance_litres ≡ sum_litres b.movements)
    × (IsDistinct b.movements × ((o : ℕ) → IsListedOnce b o))

abbrev pub IsValidDocument : Option LitreBalance → Type 0
IsValidDocument none = Unit
IsValidDocument (some b) = IsValid b

abbrev pub movements_of : Option LitreBalance → List LitreMovement
movements_of none = []
movements_of (some b) = b.movements

pub ensure_exists-IsValid :
    (b : Option LitreBalance) → IsValidDocument b → IsValid (ensure_exists b)
unfolding ensure_exists
ensure_exists-IsValid none v = (refl, (tt, λ o. (refl, omega arith)))
ensure_exists-IsValid (some b) v = v

-- A movement that reconciles nothing.
pub push_movement-IsValid :
    (k : LitreMovementKind) (q : ℤ) (o : Option ℕ) (r : Option Text) (s : Stamp) (b : LitreBalance)
    → is_reconciliation k ≡ false
    → IsFresh s.movement_id b.movements
    → IsValid b
    → IsValid (push_movement k q o r s b)
unfolding push_movement
push_movement-IsValid k q o r s b n f v =
    let m : LitreMovement = record {
      id = s.movement_id;
      kind = k;
      litres = q;
      order_id = o;
      reason = r;
      actor_id = s.actor_id;
      at = s.now;
    } in
    (
      rw (v.0, sum_litres-append b.movements m) refl,
      (
        IsDistinct-append b.movements m v.1.0 f,
        λ i. ground (arith, v.1.1 i, count-append (reconciles i) b.movements (m ∷ [])),
      ),
    )

pub reconciliation_kind-reconciles : (q : ℤ) → is_reconciliation (reconciliation_kind q) ≡ true
reconciliation_kind-reconciles q = ground arith

pub any-count : {A : Type 0} (p : A → Bool) (xs : List A) → any p xs ≡ false → count p xs ≡ 0
any-count p [] h = refl
any-count p (x ∷ xs) h = ground (arith, any-count p xs)

reconcile-IsValid :
    (o : ℕ) (q : ℤ) (s : Stamp) (b : LitreBalance)
    → any (is_order o) b.reconciled_order_ids ≡ false
    → IsFresh s.movement_id b.movements
    → IsValid b
    → IsValid (reconcile o q s b)
unfolding reconcile push_movement
reconcile-IsValid o q s b n f v =
    let m : LitreMovement = record {
      id = s.movement_id;
      kind = reconciliation_kind q;
      litres = q;
      order_id = some o;
      reason = none;
      actor_id = s.actor_id;
      at = s.now;
    } in
    (
      rw (v.0, sum_litres-append b.movements m) refl,
      (
        IsDistinct-append b.movements m v.1.0 f,
        λ i. ground (
          arith,
          v.1.1 i,
          count-append (reconciles i) b.movements (m ∷ []),
          count-append (is_order i) b.reconciled_order_ids (o ∷ []),
          reconciliation_kind-reconciles q,
          any-count (is_order o) b.reconciled_order_ids n,
        ),
      ),
    )

count-other :
    (i o : ℕ) (xs : List ℕ)
    → count (is_order i) (filter (λ x. not (x == o)) xs)
      ≡ (if i == o then 0 else count (is_order i) xs)
count-other i o [] = ground arith
count-other i o (x ∷ xs) = ground (arith, count-other i o xs)

reverse_movement-IsValid :
    (o : ℕ) (b : LitreBalance) (m : LitreMovement)
    → find? (reconciles o) b.movements ≡ some m
    → IsValid b
    → IsValid (reverse_movement o m b)
unfolding reverse_movement
reverse_movement-IsValid o b m h v = (
  rw (v.0, sum_litres-pull (reconciles o) b.movements m v.1.0 h) refl,
  (
    IsDistinct-pull m.id b.movements v.1.0,
    λ i. ground (
      arith,
      v.1.1 i,
      find-satisfies (reconciles o) b.movements m h,
      count-pull (reconciles o) (reconciles i) b.movements m v.1.0 h,
      count-other i o b.reconciled_order_ids,
    ),
  ),
)

pub IsFresh-reverse_prior :
    (o i : ℕ) (b : Option LitreBalance)
    → IsFresh i (movements_of b)
    → IsFresh i (movements_of (reverse_prior o b))
unfolding reverse_prior reverse_movement
IsFresh-reverse_prior o i none f = f
IsFresh-reverse_prior o i (some b) f = elim (Option-cases (find? (reconciles o) b.movements)) [
  | inl e ↦ rw (IsFresh, e) f
  | inr (m, e) ↦ rw (IsFresh, e) (IsFresh-pull i m.id b.movements f)
]

pub reverse_prior-IsValid :
    (o : ℕ) (b : Option LitreBalance) → IsValidDocument b → IsValidDocument (reverse_prior o b)
unfolding reverse_prior
reverse_prior-IsValid o none v = v
reverse_prior-IsValid o (some b) v = elim (Option-cases (find? (reconciles o) b.movements)) [
  | inl e ↦ rw (IsValidDocument, e) v
  | inr (m, e) ↦ rw (IsValidDocument, e) (reverse_movement-IsValid o b m e v)
]

-- The document after a call, which is the old one if the call threw.
abbrev pub saved :
    Option LitreBalance
    → Result LitreError (ReconciliationResult × Option LitreBalance)
    → Option LitreBalance
saved b (ok (r, b')) = b'
saved b (err e) = b

IsFresh-ensure_exists :
    (i : ℕ) (b : Option LitreBalance)
    → IsFresh i (movements_of b)
    → IsFresh i (ensure_exists b).movements
unfolding ensure_exists
IsFresh-ensure_exists i none f = f
IsFresh-ensure_exists i (some b) f = f

pub record_reconciliation-IsValid :
    (o ordered supplied : ℕ) (s : Stamp) (b : Option LitreBalance)
    → IsFresh s.movement_id (movements_of b)
    → IsValidDocument b
    → IsValidDocument (saved b (record_reconciliation o ordered supplied s b))
unfolding record_reconciliation
record_reconciliation-IsValid o ordered supplied s b f v =
    let q : ℤ = round_litres (sub_ℕ ordered supplied) in
    elim (Bool-cases (eqb_ℤ q (pos 0))) [
      | inl e ↦ rw e v
      | inr e ↦ elim (Bool-cases (any (is_order o) (ensure_exists b).reconciled_order_ids)) [
        | inl d ↦ rw (e, d) v
        | inr d ↦
            rw (e, d)
              (reconcile-IsValid o q s (ensure_exists b) d (IsFresh-ensure_exists s.movement_id b f)
                (ensure_exists-IsValid b v))
      ]
    ]
