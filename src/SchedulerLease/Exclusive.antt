-- ===== src/SchedulerLease/Exclusive.antt =====
-- src/common/scheduler/scheduler-lease.service.ts: who works under a lease that has not run out, and
-- what becomes of a lease whose holder has died.
use ciro_fuel_backend.Prelude.{
  ℕ, ◌+◌, ◌≤◌, ◌<◌, ◌≡◌, ◌≢◌, refl, sym, ap, ◌∙◌, Bool, true, false, ◌==◌, ==_iff, ==_refl, Option,
  none, some, arith, Bool-cases, Option-cases, inl, inr,
}
use mathlib.Core.Option.{some-injective}
use ciro_fuel_backend.SchedulerLease.{
  RedisKey, Phase, idle, working, answered, release, System, update, Step, wait, acquire, lose,
  unreachable, finish, finish_unreleased, Reach, start, later,
}

module _ (redis : RedisKey) (ttl : ℕ) where
  open redis use {Key, get, set_nx_px, del}

  -- Each call that works under a lease of its own has it until its time is over, and no lease lasts
  -- longer than the time from now.
  record IsLeased (s : System redis) : Type 0 where
    pub held :
        (i since t : ℕ)
        → s.phase i ≡ working since
        → s.clock ≤ t
        → t < since + ttl
        → get s.key t ≡ some i
    pub spent : (t : ℕ) → s.clock + ttl ≤ t → get s.key t ≡ none

  -- A call that has moved on to another phase than working is not the one that works.
  other_works :
      (i j since : ℕ) (p : Phase) (phase : ℕ → Phase)
      → p ≢ working since
      → update i p phase j ≡ working since
      → (phase j ≡ working since) × (j ≢ i)
  unfolding update
  other_works i j since p phase ne h = elim (Bool-cases (j == i)) [
    | inl e ↦ absurd (ne (ground (arith, h, e)))
    | inr e ↦ (ground (arith, h, e), λ s. ground (arith, s, e))
  ]

  still-IsLeased :
      (s : System redis) (i : ℕ) (ran : Bool)
      → IsLeased s
      → IsLeased (record s { phase = update i (answered ran) s.phase })
  still-IsLeased s i ran l = record {
    held = λ j since t w after before.
        l.held j since t (other_works i j since (answered ran) s.phase (λ e. cc) w).0 after before;
    spent = l.spent;
  }

  release-get : (i now t : ℕ) (k : Key) → get k t ≡ none → get (release redis i now k) t ≡ none
  unfolding release
  release-get i now t k h = elim (Option-cases (get k now)) [
    | inl e ↦ rw (release, e) h
    | inr (holder, e) ↦ elim (Bool-cases (holder == i)) [
      | inl f ↦ rw (release, e, f) (redis.get-del k t)
      | inr f ↦ rw (release, e, f) h
    ]
  ]

  -- A release by one call leaves the lease of another.
  release-other :
      (i j now t : ℕ) (k : Key)
      → j ≢ i
      → get k now ≡ some j
      → get k t ≡ some j
      → get (release redis i now k) t ≡ some j
  unfolding release
  release-other i j now t k ne h g =
      let apart : (j == i) ≡ false = differ j i ne in rw (release, h, apart) g
    where
      differ : (a b : ℕ) → a ≢ b → (a == b) ≡ false
      differ a b h = ground (arith, h)

  acquire-IsLeased :
      (s : System redis) (i : ℕ) (k : Key)
      → IsLeased s
      → set_nx_px i ttl s.clock s.key ≡ some k
      → IsLeased (record s { key = k; phase = update i (working s.clock) s.phase })
  unfolding update
  acquire-IsLeased s i k l h = record {
    held = λ j since t w after before. elim (Bool-cases (j == i)) [
      | inl e ↦
          let begun : since ≡ s.clock = since_now since (rw e at w) in
          redis.get_before i ttl s.clock s.key k t h after (omega (arith, begun))
          ∙ ap some (sym ((==_iff j i).0 e))
      | inr e ↦
          let mine : get s.key s.clock ≡ some j =
            l.held j since s.clock (rw e at w) (omega arith) (omega arith) in
          absurd
            (taken (set_nx_px i ttl s.clock s.key) k (redis.set_taken i ttl s.clock j s.key mine) h)
    ];
    spent = λ t after. redis.get_after i ttl s.clock s.key k t h after;
  }
    where
      since_now : (n : ℕ) → working s.clock ≡ working n → n ≡ s.clock
      since_now n h = ground (arith, h)

      taken : (o : Option Key) (k : Key) → o ≡ none → o ≡ some k → ⊥
      taken o k h e = cc

  Step-IsLeased : {s t : System redis} → Step redis ttl s t → IsLeased s → IsLeased t
  Step-IsLeased {s} (wait now after) l = record {
    held = λ i since t w from before. l.held i since t w (omega arith) before;
    spent = λ t over. l.spent t (omega arith);
  }
  Step-IsLeased {s} (acquire i k w h) l = acquire-IsLeased s i k l h
  Step-IsLeased {s} (lose i w h) l = still-IsLeased s i false l
  Step-IsLeased {s} (unreachable i w) l = still-IsLeased s i false l
  Step-IsLeased {s} (finish i since w) l = record {
    held = λ j u t x after before.
        let (y, ne) = other_works i j u (answered true) s.phase (λ e. cc) x in
        release-other i j s.clock t s.key ne (l.held j u s.clock y (omega arith) (omega arith))
          (l.held j u t y after before);
    spent = λ t over. release-get i s.clock t s.key (l.spent t over);
  }
  Step-IsLeased {s} (finish_unreleased i since w) l = still-IsLeased s i true l

  Reach-IsLeased : {s : System redis} → Reach redis ttl s → IsLeased s
  Reach-IsLeased (start t) = record {
    held = λ i since u w after before. cc;
    spent = λ u over. redis.get-empty u;
  }
  Reach-IsLeased (later r st) = Step-IsLeased st (Reach-IsLeased r)

  -- However the calls interleave, and however long any of them stands still: two calls that work
  -- while neither lease has run out are one call.
  pub one_holder_works :
      {s : System redis}
      → (i j since since' : ℕ) → Reach redis ttl s
      → s.phase i ≡ working since
      → s.phase j ≡ working since'
      → s.clock < since + ttl
      → s.clock < since' + ttl
      → i ≡ j
  one_holder_works {s} i j since since' r wi wj bi bj =
      let l : IsLeased s = Reach-IsLeased r in
      some-injective i j (
        sym (l.held i since s.clock wi (omega arith) bi)
        ∙ l.held j since' s.clock wj (omega arith) bj)

  -- A lease that nobody gives back, its holder being dead, blocks the sweep no longer than its time:
  -- from every state that can be reached, once that time has passed without a step, a call that has
  -- not begun takes the lease and works.
  pub dead_lease_runs_out :
      {s : System redis}
      → (i : ℕ) → Reach redis ttl s
      → s.phase i ≡ idle
      → (t : System redis) × (u : System redis) × Step redis ttl s t
        × Step redis ttl t u
        × (t.clock ≡ s.clock + ttl)
        × (u.phase i ≡ working t.clock)
  unfolding update
  dead_lease_runs_out {s} i r w =
      let l : IsLeased s = Reach-IsLeased r in
      let free : get s.key (s.clock + ttl) ≡ none = l.spent (s.clock + ttl) (omega arith) in
      elim (Option-cases (set_nx_px i ttl (s.clock + ttl) s.key)) [
        | inl e ↦ absurd (ground (arith, e, redis.set_free i ttl (s.clock + ttl) s.key free))
        | inr (k, e) ↦ (
          record s { clock = s.clock + ttl },
          record s {
            clock = s.clock + ttl;
            key = k;
            phase = update i (working (s.clock + ttl)) s.phase;
          },
          wait (s.clock + ttl) (omega arith),
          acquire i k w e,
          refl,
          rw (==_refl i) refl,
        )
      ]
