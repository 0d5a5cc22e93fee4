-- ===== src/Dispatch.antt =====
-- dispatch/fire.py and the parts of storage/_models.py that it answers with: the result of a fire,
-- the request, the answers of the Brain's RPC, and what a call of the dispatcher does and returns.
pub mod Retry
pub mod Fire
pub mod Attempts
pub mod Answers
pub mod Identity
pub mod Tests
use z4j_scheduler.Prelude.{
  ℕ, Bool, true, false, Option, none, some, List, [], Text, codes, ◌||◌, is_some,
}
use z4j_scheduler.Entry.{Uuid, Instant, ScheduleEntry}

pub data FireDisposition : Type 0 where
  accepted retryable_or_ambiguous terminal_quarantined slot_resolved_refresh : FireDisposition
  stale_control_refresh legacy_upgrade_required cadence_semantics_mismatch : FireDisposition

pub record FireResult : Type 0 where
  pub command_id : Option Uuid
  pub error_code : Option Text
  pub error_message : Option Text
  pub buffered : Bool
  pub disposition : Option FireDisposition
  pub acceptance_revision : ℕ
  pub accepted_last_run_at : Option Instant
  pub accepted_next_run_at : Option Instant
  pub live_control_token : Option Uuid
  pub live_revision : ℕ
  pub live_last_run_at : Option Instant
  pub live_next_run_at : Option Instant

-- disposition == "accepted"
abbrev pub is_accepted : FireDisposition → Bool
is_accepted accepted = true
is_accepted retryable_or_ambiguous = false
is_accepted terminal_quarantined = false
is_accepted slot_resolved_refresh = false
is_accepted stale_control_refresh = false
is_accepted legacy_upgrade_required = false
is_accepted cadence_semantics_mismatch = false

abbrev pub success_of : Option FireDisposition → Option Uuid → Bool → Bool
success_of (some d) command_id buffered = is_accepted d
success_of none command_id buffered = is_some command_id || buffered

abbrev pub success : FireResult → Bool
success r = success_of r.disposition r.command_id r.buffered

pub record PreparedFire : Type 0 where
  pub scheduled_for : Instant
  pub next_run_at : Option Instant

-- The arguments of `client.fire_schedule`.
pub record FireRequest : Type 0 where
  pub schedule_id : Uuid
  pub fire_id : Uuid
  pub scheduled_for : Instant
  pub fired_at : Instant
  pub triggered_by_user_id : Text
  pub schedule_entry : Option ScheduleEntry
  pub prepared_fire : Option PreparedFire
  pub scheduler_protocol_epoch : ℕ

-- `grpc.StatusCode`
pub data StatusCode : Type 0 where
  ok cancelled unknown invalid_argument deadline_exceeded not_found already_exists : StatusCode
  permission_denied resource_exhausted failed_precondition aborted out_of_range : StatusCode
  unimplemented internal unavailable data_loss unauthenticated : StatusCode

-- What an RPC answers: its response, an `AioRpcError`, or another exception.
pub data Reply (A : Type 0) : Type 0 where
  replied : A → Reply A
  rpc_error : StatusCode → Reply A
  other_error : Reply A

pub data FireError : Type 0 where
  slot_mismatch entry_mismatch unprepared not_current : FireError
  rpc_failed : StatusCode → FireError
  call_failed : FireError
  fire_dispatch_error : Option Text → Option Text → FireError

-- How a coroutine ends. The last constructor is for a loop whose fuel is spent.
pub data Ended (A : Type 0) : Type 0 where
  returned : A → Ended A
  raised : FireError → Ended A
  out_of_fuel : Ended A

-- The label of `fires_total`.
pub data FireStatus : Type 0 where
  delivered buffered failed trigger_delivered trigger_buffered trigger_failed : FireStatus

pub data AckStatus : Type 0 where
  ack_success ack_failed : AckStatus

-- The arguments of `client.acknowledge_result`.
pub record Acknowledgement : Type 0 where
  pub fire_id : Uuid
  pub command_id : Option Uuid
  pub status : AckStatus
  pub error : Option Text

-- What the dispatcher does to the world, in order. A pause is `min(backoff * 2 ** (attempt - 1), 10.0)`
-- in microseconds, times the jitter that `random.uniform(-0.2, 0.2)` gives, in thousandths.
pub data Effect : Type 0 where
  requested : FireRequest → Effect
  slept : ℕ → ℕ → Effect
  counted : FireStatus → Effect
  acknowledged : Acknowledgement → Effect

-- What the retry loop reads besides its arguments. The probe of the watch stream is read at the top of
-- the loop after `n` attempts and in the handler of attempt `n`.
pub record Surroundings : Type 0 where
  pub fire_retry_max : ℕ
  pub fire_retry_backoff : ℕ
  pub fire_schedule : FireRequest → ℕ → Reply FireResult
  pub healthy_before_retry : ℕ → Bool
  pub healthy_after_error : ℕ → Bool
  pub jitter : ℕ → ℕ
  -- `datetime.now(UTC)`, `uuid4()`, and `uuid5` of the schedule's id and an instant.
  pub clock : Instant
  pub uuid4 : Uuid
  pub uuid5 : Uuid → Instant → Uuid
