-- ===== src/LitreBalances/Drawdown.antt =====
-- What an order draws from a litre balance, and its return.
use ciro_fuel_backend.Prelude.{
  ℕ, zero, suc, ◌+◌, ◌*◌, ◌≤◌, ◌≡◌, refl, subst, Bool, true, false, Option, none, some, List, [],
  ◌∷◌, ◌++◌, find?, any, any-append, arith, if◌then◌else◌, inl, inr, Bool-cases, Option-cases, ok,
}
use ciro_fuel_backend.Prelude.Int.{
  ℤ, pos, pos_part, ◌≤ℤ◌, ◌+ℤ◌, ◌-ℤ◌, neg, eqb_ℤ, leb_ℤ, int_laws, +ℤ_parts, neg_parts, -ℤ_parts,
  eq_of_parts,
}
use ciro_fuel_backend.LitreBalances.{
  LitreMovement, LitreBalance, Stamp, draws, returns, push_movement, round_litres,
  get_balance_litres, draw, DrawdownResult, litres_to_draw, draw_if_unchanged, drawdown_loop,
  drawdown, project_drawdown, return_to, return_drawdown, order_drawdown, drawdown_returned,
}

-- A draw is not negative, and covers neither more than is there nor more than is asked for.
litres_to_draw_bounds :
    (available : ℤ) (requested : ℕ)
    → (pos 0 ≤ℤ litres_to_draw available requested)
      × ((pos_part (litres_to_draw available requested) ≤ pos_part available)
          × (pos_part (litres_to_draw available requested) * 1000 ≤ requested + 500))
unfolding litres_to_draw round_litres
litres_to_draw_bounds available requested = (omega arith, (omega arith, omega arith))

draw_balance :
    (o : ℕ) (a q : ℤ) (s : Stamp) (b : Option LitreBalance) (b' : LitreBalance)
    → draw_if_unchanged o a q s b ≡ some b'
    → b'.balance_litres ≡ a +ℤ neg q
unfolding draw_if_unchanged push_movement
draw_balance o a q s none b' h = cc
draw_balance o a q s (some b) b' h = ground (arith, eq_of_parts b.balance_litres a)

-- What a drawdown that returns reports, for a request.
abbrev pub IsWithin : ℕ → DrawdownResult → Type 0
IsWithin requested r =
    (pos 0 ≤ℤ r.litres_drawn)
    × ((pos_part r.litres_drawn * 1000 ≤ requested + 500) × (pos 0 ≤ℤ r.balance_remaining))

after_draw_nonneg :
    (a : ℤ) (requested : ℕ)
    → leb_ℤ a (pos 0) ≡ false
    → pos 0 ≤ℤ (a +ℤ neg (litres_to_draw a requested))
after_draw_nonneg a requested p = ground (
  arith,
  litres_to_draw_bounds a requested,
  +ℤ_parts a (neg (litres_to_draw a requested)),
  neg_parts (litres_to_draw a requested),
)

loop_bounds :
    (n i : ℕ) (others : ℕ → Option LitreBalance → Option LitreBalance) (o requested : ℕ) (s : Stamp)
    (b : Option LitreBalance) (r : DrawdownResult) (b' : Option LitreBalance)
    → drawdown_loop n i others o requested s b ≡ ok (r, b')
    → IsWithin requested r
unfolding drawdown_loop
loop_bounds zero i others o requested s b r b' h = cc
loop_bounds (suc n) i others o requested s b r b' h =
    let a : ℤ = get_balance_litres b in
    let q : ℤ = litres_to_draw a requested in
    elim (Bool-cases (leb_ℤ a (pos 0))) [
      | inl e ↦ ground (arith, rw e at h)
      | inr e ↦ elim (Bool-cases (leb_ℤ q (pos 0))) [
        | inl d ↦ ground (arith, rw (e, d) at h)
        | inr d ↦ elim (Option-cases (draw_if_unchanged o a q s (others i b))) [
          | inl c ↦ loop_bounds n (i + 1) others o requested s (others i b) r b' (rw (e, d, c) at h)
          | inr (u, c) ↦
              let r_eq : record { litres_drawn = q; balance_remaining = u.balance_litres } ≡ r =
                ground (arith, rw (e, d, c) at h) in
              subst (IsWithin requested) r_eq (
                (litres_to_draw_bounds a requested).0,
                (
                  (litres_to_draw_bounds a requested).1.1,
                  rw (draw_balance o a q s (others i b) u c) (after_draw_nonneg a requested e),
                ),
              )
        ]
      ]
    ]

-- Whatever other requests do to the document between its reads and writes, a drawdown that
-- returns has drawn no less than zero and no more than was asked for, within half a millilitre,
-- and reports a balance that is not negative.
pub drawdown_bounds :
    (others : ℕ → Option LitreBalance → Option LitreBalance) (o requested : ℕ) (s : Stamp)
    (b : Option LitreBalance) (r : DrawdownResult) (b' : Option LitreBalance)
    → drawdown others o requested s b ≡ ok (r, b')
    → IsWithin requested r
unfolding drawdown
drawdown_bounds others o requested s b r b' h = loop_bounds 5 0 others o requested s b r b' h

eqb_ℤ_refl : (a : ℤ) → eqb_ℤ a a ≡ true
eqb_ℤ_refl a = ground arith

draw_if_unchanged_same :
    (o : ℕ) (q : ℤ) (s : Stamp) (b : LitreBalance)
    → draw_if_unchanged o b.balance_litres q s (some b) ≡ some (draw o q s b)
unfolding draw_if_unchanged
draw_if_unchanged_same o q s b = rw (eqb_ℤ_refl b.balance_litres) refl

draw_sub : (a q : ℤ) → a +ℤ neg q ≡ a -ℤ q
draw_sub a q = grind int_laws

-- The document after a drawdown that nothing interferes with.
abbrev pub drawn_document : ℕ → ℕ → Stamp → LitreBalance → LitreBalance
drawn_document o requested s b =
    let q : ℤ = litres_to_draw b.balance_litres requested in
    if leb_ℤ b.balance_litres (pos 0) then b else if leb_ℤ q (pos 0) then b else draw o q s b

loop-project_drawdown :
    (n i o requested : ℕ) (s : Stamp) (b : LitreBalance)
    → pos 0 ≤ℤ b.balance_litres
    → drawdown_loop (suc n) i (λ _ c. c) o requested s (some b)
      ≡ ok (project_drawdown requested (some b), some (drawn_document o requested s b))
unfolding drawdown_loop project_drawdown push_movement
loop-project_drawdown n i o requested s b p = ground (
  arith,
  litres_to_draw_bounds b.balance_litres requested,
  draw_if_unchanged_same o (litres_to_draw b.balance_litres requested) s b,
  draw_sub b.balance_litres (litres_to_draw b.balance_litres requested),
  -ℤ_parts b.balance_litres (litres_to_draw b.balance_litres requested),
)

-- Without interference a drawdown on a balance that is not negative goes through at once, and
-- comes out as the projection that priced the quotation.
pub drawdown-project_drawdown :
    (o requested : ℕ) (s : Stamp) (b : LitreBalance)
    → pos 0 ≤ℤ b.balance_litres
    → drawdown (λ _ c. c) o requested s (some b)
      ≡ ok (project_drawdown requested (some b), some (drawn_document o requested s b))
unfolding drawdown
drawdown-project_drawdown o requested s b p = loop-project_drawdown 4 0 o requested s b p

-- A return that has been made is not made again.
pub return_drawdown_once :
    (o : ℕ) (s s' : Stamp) (b : Option LitreBalance)
    → return_drawdown o s' (return_drawdown o s b) ≡ return_drawdown o s b
unfolding return_drawdown return_to push_movement
return_drawdown_once o s s' none = refl
return_drawdown_once o s s' (some b) = elim (Bool-cases (any (returns o) b.movements)) [
  | inl e ↦ rw (e, e) refl
  | inr e ↦ elim (Option-cases (find? (draws o) b.movements)) [
    | inl d ↦ ground (arith, e, d)
    | inr (m, d) ↦ ground (
      arith,
      e,
      d,
      any-append (returns o) b.movements (
          record {
            id = s.movement_id;
            kind = drawdown_returned;
            litres = neg m.litres;
            order_id = some o;
            reason = none;
            actor_id = s.actor_id;
            at = s.now;
          }
          ∷ []),
    )
  ]
]

find-append :
    (p : LitreMovement → Bool) (ms : List LitreMovement) (m : LitreMovement)
    → find? p ms ≡ none
    → p m ≡ true
    → find? p (ms ++ m ∷ []) ≡ some m
find-append p [] m f h = ground arith
find-append p (x ∷ ms) m f h = ground (arith, find-append p ms m)

return-draw :
    (o : ℕ) (q : ℤ) (s s' : Stamp) (b : LitreBalance)
    → find? (draws o) b.movements ≡ none
    → any (returns o) b.movements ≡ false
    → get_balance_litres (return_drawdown o s' (some (draw o q s b))) ≡ b.balance_litres
unfolding return_drawdown return_to push_movement
return-draw o q s s' b d r =
    let m : LitreMovement = record {
      id = s.movement_id;
      kind = order_drawdown;
      litres = neg q;
      order_id = some o;
      reason = none;
      actor_id = s.actor_id;
      at = s.now;
    } in
    let unreturned : any (returns o) (b.movements ++ m ∷ []) ≡ false =
      ground (arith, any-append (returns o) b.movements (m ∷ []), r) in
    let found : find? (draws o) (b.movements ++ m ∷ []) ≡ some m =
      find-append (draws o) b.movements m d (ground arith) in
    rw (unreturned, found) (grind int_laws)

return-unchanged :
    (o : ℕ) (s' : Stamp) (b : LitreBalance)
    → find? (draws o) b.movements ≡ none
    → return_drawdown o s' (some b) ≡ some b
unfolding return_drawdown return_to
return-unchanged o s' b d = ground (arith, d)

loop-return :
    (n i o requested : ℕ) (s s' : Stamp) (b : LitreBalance) (r : DrawdownResult)
    (b' : Option LitreBalance)
    → find? (draws o) b.movements ≡ none
    → any (returns o) b.movements ≡ false
    → drawdown_loop (suc n) i (λ _ c. c) o requested s (some b) ≡ ok (r, b')
    → get_balance_litres (return_drawdown o s' b') ≡ b.balance_litres
unfolding drawdown_loop
loop-return n i o requested s s' b r b' d u h = ground (
  arith,
  return-unchanged o s' b d,
  return-draw o (litres_to_draw b.balance_litres requested) s s' b d u,
  draw_if_unchanged_same o (litres_to_draw b.balance_litres requested) s b,
)

-- The return of a drawdown that nothing interfered with, of an order that had drawn nothing
-- before, gives the balance from before the drawdown.
pub return_drawdown-drawdown :
    (o requested : ℕ) (s s' : Stamp) (b : LitreBalance) (r : DrawdownResult)
    (b' : Option LitreBalance)
    → find? (draws o) b.movements ≡ none
    → any (returns o) b.movements ≡ false
    → drawdown (λ _ c. c) o requested s (some b) ≡ ok (r, b')
    → get_balance_litres (return_drawdown o s' b') ≡ b.balance_litres
unfolding drawdown
return_drawdown-drawdown o requested s s' b r b' d u h =
    loop-return 4 0 o requested s s' b r b' d u h
