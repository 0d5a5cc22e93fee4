-- ===== src/Engine.antt =====
-- tick/engine.py: the state of `TickEngine`, and what its coroutines read from the rest of the process.
-- Durations are in microseconds. The log and the metrics are left out.
pub mod Marks
pub mod Backlog
pub mod Stops
pub mod Drain
pub mod Fire
pub mod Turns
pub mod Gates
pub mod Sent
pub mod OnTime
pub mod Claims
pub mod Mismatch
pub mod Upkeep
pub mod Wake
pub mod Pruned
pub mod Tests
use z4j_scheduler.Prelude.{ℕ, ◌+◌, Bool, true, false, Option, none, some, List, [], Text, max}
use z4j_scheduler.Dict.{Dict, Set}
use z4j_scheduler.Entry.{Uuid, Instant, ScheduleEntry, CadenceIdentity}
use z4j_scheduler.Cache.State.{Cache}
use z4j_scheduler.Quarantine.{PendingQuarantineReport, Answer}
use z4j_scheduler.Dispatch.{FireResult, PreparedFire}

-- The slot that a follower saw due, or that a leader judged to be on time, with its cadence.
pub record Marked : Type 0 where
  pub slot : Instant
  pub cadence : CadenceIdentity

pub record Entitlement : Type 0 where
  pub marked : Marked
  pub granted_at : Instant

-- The fields of the engine. The cache is shared with the other tasks; the queue of the reporter is
-- absent where no reporter is wired.
pub record TickEngine : Type 0 where
  pub cache : Cache
  pub quarantine_reporter : Option (List PendingQuarantineReport)
  pub in_flight : Set
  pub fan_out_idle : Bool
  pub pending_disables : Dict ScheduleEntry
  pub fire_error_counts : Dict ℕ
  pub fire_backoff_until : Dict Instant
  pub fire_backoff_def : Dict ScheduleEntry
  pub compute_quarantined : Dict Text
  pub follower_parked : Dict Instant
  pub follower_handoff : Dict Marked
  pub slot_entitled : Dict Entitlement
  pub cadence_mismatch_latched : Dict Uuid
  pub cadence_renegotiated : Set
  pub leader_heartbeat : ℕ
  pub on_time_grace : ℕ

abbrev pub second : ℕ
second = 1000000

-- `_follower_recheck_seconds`
abbrev pub follower_recheck : ℕ
follower_recheck = 5000000

abbrev pub max_fire_backoff : ℕ
max_fire_backoff = 300000000

abbrev pub entitlement_max_age : ℕ
entitlement_max_age = 900000000

abbrev pub max_dispatch_per_tick : ℕ
max_dispatch_per_tick = 256

unfoldable pub promotion_grace_for : ℕ → ℕ → ℕ → ℕ
promotion_grace_for leader_heartbeat recheck base_grace =
    max 30000000 (base_grace + leader_heartbeat + recheck)

-- How a coroutine or a computation ends that may raise.
pub data Outcome {ℓ} (A : Type ℓ) : Type ℓ where
  done : A → Outcome A
  threw : Outcome A

pub data CursorTransitionDisposition : Type 0 where
  applied idempotent slot_resolved_refresh : CursorTransitionDisposition
  stale_control_refresh cadence_semantics_mismatch : CursorTransitionDisposition

pub record CursorTransitionResult : Type 0 where
  pub disposition : CursorTransitionDisposition
  pub committed_revision : ℕ
  pub committed_last_run_at : Option Instant
  pub committed_next_run_at : Option Instant
  pub live_control_token : Uuid
  pub live_revision : ℕ
  pub live_last_run_at : Option Instant
  pub live_next_run_at : Option Instant
  pub error_code : Option Text
  pub error_message : Option Text
