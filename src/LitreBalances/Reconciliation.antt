-- ===== src/LitreBalances/Reconciliation.antt =====
-- A supplier's invoice is reconciled once, and a restatement takes the place of the first.
use ciro_fuel_backend.Prelude.{
  ℕ, ◌≤◌, ◌≡◌, refl, sym, ap, Bool, true, false, Option, none, some, List, [], ◌∷◌, ◌++◌, count,
  filter, find?, any, any-append, arith, inl, inr, Bool-cases, Option-cases, ok, err,
}
use ciro_fuel_backend.Prelude.Int.{ℤ, pos, ◌+ℤ◌, ◌-ℤ◌, eqb_ℤ, ltb_ℤ, sub_ℕ, int_laws}
use ciro_fuel_backend.LitreBalances.{
  LitreMovement, LitreBalance, Stamp, reconciles, push_movement, reverse_movement, round_litres,
  ReconciliationResult, ensure_exists, reconcile, reconciliation_kind, get_balance_litres,
  record_reconciliation, reverse_prior, restate_reconciliation, supplier_invoice_already_recorded,
}
use ciro_fuel_backend.LitreBalances.Sums.{sum_litres, find-satisfies, count-pull}
use ciro_fuel_backend.LitreBalances.Invariant.{
  is_order, IsValidDocument, movements_of, reverse_prior-IsValid, ensure_exists-IsValid,
  reconciliation_kind-reconciles,
}

-- The litres that an order's reconciliation contributes to the balance.
abbrev pub reconciled_litres : ℕ → Option LitreBalance → ℤ
reconciled_litres o b = sum_litres (filter (reconciles o) (movements_of b))

-- Once a shortfall or an excess of an order is recorded, every later one of it is refused.
pub record_reconciliation_once :
    (o ordered supplied ordered' supplied' : ℕ) (s s' : Stamp) (b : Option LitreBalance)
    {r : ReconciliationResult} {b' : Option LitreBalance}
    → record_reconciliation o ordered supplied s b ≡ ok (r, b')
    → eqb_ℤ (round_litres (sub_ℕ ordered supplied)) (pos 0) ≡ false
    → eqb_ℤ (round_litres (sub_ℕ ordered' supplied')) (pos 0) ≡ false
    → record_reconciliation o ordered' supplied' s' b' ≡ err supplier_invoice_already_recorded
unfolding record_reconciliation reconcile push_movement ensure_exists
record_reconciliation_once o d n d' n' s s' b h e e' =
    ground (arith, any-append (is_order o) (ensure_exists b).reconciled_order_ids (o ∷ []))

any_of_count : {A : Type 0} (p : A → Bool) (xs : List A) → count p xs ≡ 0 → any p xs ≡ false
any_of_count p [] h = refl
any_of_count p (x ∷ xs) h = ground (arith, any_of_count p xs)

filter_of_count : {A : Type 0} (p : A → Bool) (xs : List A) → count p xs ≡ 0 → filter p xs ≡ []
filter_of_count p [] h = refl
filter_of_count p (x ∷ xs) h = ground (arith, filter_of_count p xs)

count_of_find : {A : Type 0} (p : A → Bool) (xs : List A) → find? p xs ≡ none → count p xs ≡ 0
count_of_find p [] h = refl
count_of_find p (x ∷ xs) h = ground (arith, count_of_find p xs)

-- After the reversal the order has no reconciliation left.
reverse_prior-none :
    (o : ℕ) (b : Option LitreBalance)
    → IsValidDocument b
    → count (reconciles o) (movements_of (reverse_prior o b)) ≡ 0
unfolding reverse_prior reverse_movement
reverse_prior-none o none v = refl
reverse_prior-none o (some b) v = elim (Option-cases (find? (reconciles o) b.movements)) [
  | inl e ↦ rw (count, e) (count_of_find (reconciles o) b.movements e)
  | inr (m, e) ↦
      rw (count, e)
        (ground (
          arith,
          (v.1.1 o).1,
          find-satisfies (reconciles o) b.movements m e,
          count-pull (reconciles o) (reconciles o) b.movements m v.1.0 e,
        ))
]

filter-append :
    {A : Type 0} (p : A → Bool) (xs : List A) (y : A)
    → p y ≡ true
    → filter p (xs ++ y ∷ []) ≡ filter p xs ++ y ∷ []
filter-append p [] y h = ground arith
filter-append p (x ∷ xs) y h = ground (arith, filter-append p xs y h)

-- The only element that the test holds of.
filter_of_find :
    {A : Type 0} (p : A → Bool) (xs : List A) (a : A)
    → find? p xs ≡ some a
    → count p xs ≤ 1
    → filter p xs ≡ a ∷ []
filter_of_find p [] a h c = cc
filter_of_find p (x ∷ xs) a h c = ground (arith, filter_of_find p xs a, filter_of_count p xs)

ensure_exists-movements : (b : Option LitreBalance) → (ensure_exists b).movements ≡ movements_of b
unfolding ensure_exists
ensure_exists-movements none = refl
ensure_exists-movements (some b) = refl

ensure_exists-balance :
    (b : Option LitreBalance) → (ensure_exists b).balance_litres ≡ get_balance_litres b
unfolding ensure_exists
ensure_exists-balance none = refl
ensure_exists-balance (some b) = refl

-- A call for an order that has no reconciliation goes through.
record_reconciliation-none :
    (o ordered supplied : ℕ) (s : Stamp) (b : Option LitreBalance)
    → IsValidDocument b
    → count (reconciles o) (movements_of b) ≡ 0
    → (r : ReconciliationResult) × (b' : Option LitreBalance) × ((record_reconciliation o ordered
            supplied s b
          ≡ ok (r, b'))
        × ((reconciled_litres o b' ≡ round_litres (sub_ℕ ordered supplied))
            × (get_balance_litres b'
                ≡ get_balance_litres b +ℤ round_litres (sub_ℕ ordered supplied))))
unfolding record_reconciliation reconcile push_movement
record_reconciliation-none o ordered supplied s b v c =
    let q : ℤ = round_litres (sub_ℕ ordered supplied) in
    let e : LitreBalance = ensure_exists b in
    let ms : List LitreMovement = e.movements in
    let none_left : filter (reconciles o) ms ≡ [] =
      rw (ensure_exists-movements b) (filter_of_count (reconciles o) (movements_of b) c) in
    let unlisted : any (is_order o) e.reconciled_order_ids ≡ false =
      any_of_count (is_order o) e.reconciled_order_ids
        (ground (arith, ensure_exists-movements b, ((ensure_exists-IsValid b v).1.1 o).0, c)) in
    elim (Bool-cases (eqb_ℤ q (pos 0))) [
      | inl z ↦ (
        record {
          shortfall_litres = pos 0;
          balance_litres = get_balance_litres b;
          went_negative = false;
        },
        b,
        (
          rw z refl,
          (rw (filter_of_count (reconciles o) (movements_of b) c) (grind int_laws), grind int_laws),
        ),
      )
      | inr z ↦
          let b' : LitreBalance = reconcile o q s e in
          (
            record {
              shortfall_litres = q;
              balance_litres = b'.balance_litres;
              went_negative = ltb_ℤ b'.balance_litres (pos 0);
            },
            some b',
            (
              rw (z, unlisted) refl,
              (
                (rw
                    (
                      filter-append (reconciles o) ms
                          (record {
                            id = s.movement_id;
                            kind = reconciliation_kind q;
                            litres = q;
                            order_id = some o;
                            reason = none;
                            actor_id = s.actor_id;
                            at = s.now;
                          })
                          (ground (arith, reconciliation_kind-reconciles q)),
                      none_left,
                    )
                    (grind int_laws)),
                ap (λ a. a +ℤ q) (ensure_exists-balance b),
              ),
            ),
          )
    ]

reverse_prior-balance :
    (o : ℕ) (b : Option LitreBalance)
    → IsValidDocument b
    → get_balance_litres (reverse_prior o b) ≡ get_balance_litres b -ℤ reconciled_litres o b
unfolding reverse_prior reverse_movement
reverse_prior-balance o none v = grind int_laws
reverse_prior-balance o (some b) v = elim (Option-cases (find? (reconciles o) b.movements)) [
  | inl e ↦
      rw
        (
          get_balance_litres,
          e,
          filter_of_count (reconciles o) b.movements (count_of_find (reconciles o) b.movements e),
        )
        (grind int_laws)
  | inr (m, e) ↦
      rw (get_balance_litres, e, filter_of_find (reconciles o) b.movements m e (v.1.1 o).1)
        (grind int_laws)
]

-- A restatement always goes through. It leaves the order with a reconciliation of the restated
-- difference alone, and moves the balance by the difference between that and the earlier one.
pub restate_replaces :
    (o ordered supplied : ℕ) (s : Stamp) (b : Option LitreBalance)
    → IsValidDocument b
    → (r : ReconciliationResult) × (b' : Option LitreBalance) × ((restate_reconciliation o ordered
            supplied s b
          ≡ ok (r, b'))
        × ((reconciled_litres o b' ≡ round_litres (sub_ℕ ordered supplied))
            × (get_balance_litres b'
                ≡ (get_balance_litres b -ℤ reconciled_litres o b)
                  +ℤ round_litres (sub_ℕ ordered supplied))))
unfolding restate_reconciliation
restate_replaces o ordered supplied s b v = rw (sym (reverse_prior-balance o b v)) (
    record_reconciliation-none o ordered supplied s (reverse_prior o b)
      (reverse_prior-IsValid o b v) (reverse_prior-none o b v))
