-- ===== src/Convert/Requests.antt =====
-- storage/_convert.py: the requests that the scheduler sends. The fingerprint of the cadence runtime, a hash
-- of packaged files, is a parameter.
use z4j_scheduler.Prelude.{
  ℕ, Bool, not, Option, none, some, [], Text, non_empty, ◌==◌, ◌&&◌, ◌||◌, ltb, if◌then◌else◌,
  is_some,
}
use z4j_scheduler.Entry.{Uuid, Instant, ScheduleEntry}
use z4j_scheduler.Dispatch.{FireRequest, PreparedFire}
use z4j_scheduler.Convert.{
  Timestamp, Decoded, decoded, bad, datetime_to_ts, Codec, optional_str, lacks_authority,
  slot_mismatch,
}

pub record FireRequestMessage : Type 0 where
  pub schedule_id : Text
  pub fire_id : Text
  pub scheduled_for : Timestamp
  pub fired_at : Timestamp
  pub triggered_by_user_id : Text
  pub scheduler_protocol_epoch : ℕ
  pub observed_control_token : Text
  pub definition_digest : Text
  pub expected_schedule_revision : ℕ
  pub expected_last_run_at : Option Timestamp
  pub expected_next_run_at : Option Timestamp
  pub prepared_next_run_at : Option Timestamp
  pub cadence_semantics_version : ℕ
  pub cadence_runtime_fingerprint : Text

pub record AdvanceCursorMessage : Type 0 where
  pub project_id : Text
  pub schedule_id : Text
  pub observed_control_token : Text
  pub definition_digest : Text
  pub expected_schedule_revision : ℕ
  pub skipped_through : Timestamp
  pub scheduler_protocol_epoch : ℕ
  pub cadence_semantics_version : ℕ
  pub cadence_runtime_fingerprint : Text
  pub expected_last_run_at : Option Timestamp
  pub expected_next_run_at : Option Timestamp
  pub prepared_next_run_at : Option Timestamp

-- request.f.CopyFrom(datetime_to_ts(t)) where there is one
abbrev pub set_field : Option Instant → Option Timestamp
set_field none = none
set_field (some t) = some (datetime_to_ts (some t))

-- `CADENCE_SEMANTICS_VERSION` and `CURRENT_PROTOCOL_EPOCH`
abbrev pub cadence_semantics_version : ℕ
cadence_semantics_version = 1

abbrev pub current_protocol_epoch : ℕ
current_protocol_epoch = 1

-- What an entry must carry for a fire of the current protocol.
unfoldable pub authorized : ScheduleEntry → ℕ → Bool
authorized e epoch =
    is_some e.control_token
    && ltb 0 e.schedule_revision
    && ltb 0 epoch
    && non_empty e.definition_digest
    && ltb 0 e.cadence_semantics_version
    && non_empty e.cadence_runtime_fingerprint

module _ (w : Codec) (cadence_runtime_fingerprint : Text) where
  abbrev pub plain_request : FireRequest → FireRequestMessage
  plain_request q = record {
    schedule_id = w.str q.schedule_id;
    fire_id = w.str q.fire_id;
    scheduled_for = datetime_to_ts (some q.scheduled_for);
    fired_at = datetime_to_ts (some q.fired_at);
    triggered_by_user_id = q.triggered_by_user_id;
    scheduler_protocol_epoch = 0;
    observed_control_token = [];
    definition_digest = [];
    expected_schedule_revision = 0;
    expected_last_run_at = none;
    expected_next_run_at = none;
    prepared_next_run_at = none;
    cadence_semantics_version = 0;
    cadence_runtime_fingerprint = [];
  }

  abbrev pub current_request : FireRequest → ScheduleEntry → PreparedFire → FireRequestMessage
  current_request q e p = record (plain_request q) {
    scheduler_protocol_epoch = q.scheduler_protocol_epoch;
    observed_control_token = optional_str w e.control_token;
    definition_digest = e.definition_digest;
    expected_schedule_revision = e.schedule_revision;
    expected_last_run_at = set_field e.last_fire_at;
    expected_next_run_at = set_field e.next_fire_at;
    prepared_next_run_at = set_field p.next_run_at;
    cadence_semantics_version = cadence_semantics_version;
    cadence_runtime_fingerprint = cadence_runtime_fingerprint;
  }

  unfoldable pub request_for :
      FireRequest → Option ScheduleEntry → Option PreparedFire → Decoded FireRequestMessage
  request_for q none none = decoded (plain_request q)
  request_for q none (some p) = bad lacks_authority
  request_for q (some e) none = bad lacks_authority
  request_for q (some e) (some p) =
      if not (authorized e q.scheduler_protocol_epoch)
      then bad lacks_authority
      else if not (p.scheduled_for == q.scheduled_for)
      then bad slot_mismatch
      else decoded (current_request q e p)

  unfoldable pub make_fire_request : FireRequest → Decoded FireRequestMessage
  make_fire_request q = request_for q q.schedule_entry q.prepared_fire

  -- `make_advance_cursor_request`, with the arguments that `advance_cursor` of dispatch/fire.py gives it.
  unfoldable pub make_advance_cursor_request :
      ScheduleEntry → Uuid → PreparedFire → Decoded AdvanceCursorMessage
  make_advance_cursor_request e token p =
      if not (ltb 0 e.schedule_revision)
        || not (non_empty e.definition_digest)
        || not (non_empty cadence_runtime_fingerprint)
      then bad lacks_authority
      else decoded (record {
        project_id = w.str e.project_id;
        schedule_id = w.str e.id;
        observed_control_token = w.str token;
        definition_digest = e.definition_digest;
        expected_schedule_revision = e.schedule_revision;
        skipped_through = datetime_to_ts (some p.scheduled_for);
        scheduler_protocol_epoch = current_protocol_epoch;
        cadence_semantics_version = cadence_semantics_version;
        cadence_runtime_fingerprint = cadence_runtime_fingerprint;
        expected_last_run_at = set_field e.last_fire_at;
        expected_next_run_at = set_field e.next_fire_at;
        prepared_next_run_at = set_field p.next_run_at;
      })
