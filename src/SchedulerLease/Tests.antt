-- ===== src/SchedulerLease/Tests.antt =====
-- The lease of src/common/scheduler/scheduler-lease.service.ts over a store that keeps a value with
-- the time of its end: call 3 works and dies, and call 5 takes over.
use ciro_fuel_backend.Prelude.{ℕ, ◌+◌, ◌≡◌, refl, Option, none, some, ltb, if◌then◌else◌, arith}
use ciro_fuel_backend.SchedulerLease.{
  RedisKey, idle, working, System, update, Step, acquire, Reach, start, later,
}
use ciro_fuel_backend.SchedulerLease.Exclusive.{one_holder_works, dead_lease_runs_out}

record Entry : Type 0 where
  token : ℕ
  end : ℕ

abbrev read : Option Entry → ℕ → Option ℕ
read none t = none
read (some e) t = if ltb t e.end then some e.token else none

abbrev write : ℕ → ℕ → ℕ → Option Entry → Option (Option Entry)
write token ttl now k = elim (read k now) [
  | none ↦ some (some (record { token = token; end = now + ttl }))
  | some holder ↦ none
]

abbrev store : RedisKey
store = record {
  Key = Option Entry;
  empty = none;
  get = read;
  set_nx_px = write;
  del = λ k. none;
  get-empty = λ t. refl;
  get-del = λ k t. refl;
  set_taken = λ token ttl now holder k h. ground (arith, h);
  set_free = λ token ttl now k h. ground (arith, h);
  get_before = λ token ttl now k k' t h after before. ground (arith, h);
  get_after = λ token ttl now k k' t h after. ground (arith, h);
}

abbrev taken : System store
taken = record {
  clock = 100;
  key = some (record { token = 3; end = 130 });
  phase = update 3 (working 100) (λ i. idle);
}

taken_reached : Reach store 30 taken
taken_reached = later (start 100) (acquire 3 (some (record { token = 3; end = 130 })) refl refl)

one_holder_works_example : ◌≡◌ {A = ℕ} 3 3
unfolding update
one_holder_works_example =
    one_holder_works store 30 {s = taken} 3 3 100 100 taken_reached refl refl (omega arith)
      (omega arith)

dead_lease_runs_out_example :
    (t : System store) × (u : System store) × Step store 30 taken t
    × Step store 30 t u
    × (t.clock ≡ 130)
    × (u.phase 5 ≡ working t.clock)
unfolding update
dead_lease_runs_out_example = dead_lease_runs_out store 30 {s = taken} 5 taken_reached refl
