-- ===== src/SchedulerLease.antt =====
-- src/common/scheduler/scheduler-lease.service.ts: the lease that lets one instance at a time run a
-- sweep. Redis is a parameter, with what its commands promise; the service's own script, which
-- deletes a lease that is still one's own, is translated. Instances interleave as steps. The lease is enabled: with
-- `scheduler.leaseEnabled` off, the work runs at once.
pub mod Exclusive
mod Tests
use ciro_fuel_backend.Prelude.{
  ℕ, ◌+◌, ◌≤◌, ◌<◌, ◌≡◌, Bool, true, false, ◌==◌, Option, none, some, is_id, if◌then◌else◌, is_some,
}

-- A key of the store: its value at a time, `SET key token NX PX ttl` at a time, which may decline,
-- and `DEL key`.
pub record RedisKey : Type 1 where
  pub Key : Type 0
  pub empty : Key
  pub get : Key → ℕ → Option ℕ
  pub set_nx_px : ℕ → ℕ → ℕ → Key → Option Key
  pub del : Key → Key
  pub get-empty : (t : ℕ) → get empty t ≡ none
  pub get-del : (k : Key) (t : ℕ) → get (del k) t ≡ none
  -- A key that has a value is not set again, and one that has none is.
  pub set_taken :
      (token ttl now holder : ℕ) (k : Key)
      → get k now ≡ some holder
      → set_nx_px token ttl now k ≡ none
  pub set_free :
      (token ttl now : ℕ) (k : Key) → get k now ≡ none → is_some (set_nx_px token ttl now k) ≡ true
  -- The value stays until its time is over, and is gone then.
  pub get_before :
      (token ttl now : ℕ) (k k' : Key) (t : ℕ)
      → set_nx_px token ttl now k ≡ some k'
      → now ≤ t
      → t < now + ttl
      → get k' t ≡ some token
  pub get_after :
      (token ttl now : ℕ) (k k' : Key) (t : ℕ)
      → set_nx_px token ttl now k ≡ some k'
      → now + ttl ≤ t
      → get k' t ≡ none

-- Where a call of `runExclusively` stands. A call is named by its token, which is unique to it.
pub data Phase : Type 0 where
  idle : Phase
  working : (since : ℕ) → Phase
  -- It has answered: whether the work was done.
  answered : (ran : Bool) → Phase

-- The calls after one of them has moved on.
unfoldable pub update : ℕ → Phase → (ℕ → Phase) → ℕ → Phase
update i p phase j = if j == i then p else phase j

module _ (redis : RedisKey) where
  open redis use {Key, get, set_nx_px, del}

  -- `RELEASE_SCRIPT`.
  unfoldable pub release : ℕ → ℕ → Key → Key
  release token now k = elim (get k now) [
    | none ↦ k
    | some holder ↦ if holder == token then del k else k
  ]

  pub record System : Type 0 where
    pub clock : ℕ
    pub key : Key
    pub phase : ℕ → Phase

  -- A step of `runExclusively` of some call, or of the time. A call whose work throws goes through
  -- `finally` as well; a call may stand still for any time, and for good.
  pub data Step (ttl : ℕ) (s : System) : System → Type 0 where
    wait : (later : ℕ) → s.clock ≤ later → Step ttl s (record s { clock = later })
    acquire :
        (i : ℕ) (k : Key)
        → s.phase i ≡ idle
        → set_nx_px i ttl s.clock s.key ≡ some k
        → Step ttl s (record s { key = k; phase = update i (working s.clock) s.phase })
    lose :
        (i : ℕ)
        → s.phase i ≡ idle
        → set_nx_px i ttl s.clock s.key ≡ none
        → Step ttl s (record s { phase = update i (answered false) s.phase })
    unreachable :
        (i : ℕ)
        → s.phase i ≡ idle
        → Step ttl s (record s { phase = update i (answered false) s.phase })
    finish :
        (i since : ℕ)
        → s.phase i ≡ working since
        → Step ttl s
            (record s { key = release i s.clock s.key; phase = update i (answered true) s.phase })
    finish_unreleased :
        (i since : ℕ)
        → s.phase i ≡ working since
        → Step ttl s (record s { phase = update i (answered true) s.phase })

  pub data Reach (ttl : ℕ) : System → Type 0 where
    start : (t : ℕ) → Reach ttl (record { clock = t; key = redis.empty; phase = λ i. idle })
    later : {s t : System} → Reach ttl s → Step ttl s t → Reach ttl t
