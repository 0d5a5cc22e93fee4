-- ===== src/Convert/Messages.antt =====
-- storage/_convert.py: the frames of the Watch stream, the answers of the Brain's RPCs, and the request of a
-- fire. An enumeration is the number that proto/scheduler.proto gives it.
use z4j_scheduler.Prelude.{
  ℕ, Bool, not, Option, none, some, [], ◌∷◌, Text, non_empty, ◌==◌, ◌&&◌, ◌||◌, ltb, leb,
  if◌then◌else◌,
}
use z4j_scheduler.Entry.{Uuid, Instant}
use z4j_scheduler.WatchV2.{upsert, tombstone, Frame, change, scanned}
use z4j_scheduler.Quarantine.{QuarantineOutcome, QuarantineResult, ScheduleStateObservation}
use z4j_scheduler.Dispatch.{FireDisposition, FireResult}
use z4j_scheduler.Engine.{CursorTransitionDisposition, CursorTransitionResult}
use z4j_scheduler.Engine.Fire.{is_committed}
use z4j_scheduler.Convert.{
  Timestamp, ScheduleMessage, Decoded, decoded, bad, ◌>>=◌, ◌>>◌, require, ts_to_datetime, Codec,
  uuid, optional_uuid, entry_from_pb, unsupported_framing, empty_frame, unknown_change,
  below_minimum_revision, row_escaped, absence_escaped, empty_state, unknown_outcome,
  lacks_observed_revision, unknown_disposition, lacks_live_control, lacks_committed_revision,
}

pub record ChangeMessage : Type 0 where
  pub kind : ℕ
  pub revision : ℕ
  pub project_id : Text
  pub schedule : ScheduleMessage
  pub deleted_id : Text

-- The `oneof` of a frame of the Watch stream.
pub data FrameBody : Type 0 where
  no_frame : FrameBody
  change_frame : ChangeMessage → FrameBody
  scanned_through : ℕ → ℕ → FrameBody

pub record WatchFrameMessage : Type 0 where
  pub format_version : ℕ
  pub frame : FrameBody

-- The `oneof` of a schedule state, where an absence names its project and its schedule.
pub data StateBody : Type 0 where
  no_state : StateBody
  row_state : ScheduleMessage → StateBody
  absence_state : Text → Text → StateBody

pub record StateMessage : Type 0 where
  pub observed_revision : ℕ
  pub state : StateBody

pub record CursorMessage : Type 0 where
  pub disposition : ℕ
  pub committed_revision : ℕ
  pub committed_last_run_at : Option Timestamp
  pub committed_next_run_at : Option Timestamp
  pub live_control_token : Text
  pub live_revision : ℕ
  pub live_last_run_at : Option Timestamp
  pub live_next_run_at : Option Timestamp
  pub error_code : Text
  pub error_message : Text

pub record FireResponse : Type 0 where
  pub command_id : Text
  pub error_code : Text
  pub error_message : Text
  pub buffered : Bool
  pub disposition : ℕ
  pub acceptance_revision : ℕ
  pub accepted_last_run_at : Option Timestamp
  pub accepted_next_run_at : Option Timestamp
  pub live_control_token : Text
  pub live_revision : ℕ
  pub live_last_run_at : Option Timestamp
  pub live_next_run_at : Option Timestamp

-- ts_to_datetime(message.f) if message.HasField("f") else None
abbrev pub field_instant : Option Timestamp → Option Instant
field_instant none = none
field_instant (some t) = ts_to_datetime t

-- value or None
abbrev pub optional_text : Text → Option Text
optional_text [] = none
optional_text (c ∷ s) = some (c ∷ s)

unfoldable pub outcome_from : ℕ → Decoded QuarantineOutcome
outcome_from n =
    if n == 1
    then decoded QuarantineOutcome.applied
    else if n == 2
    then decoded QuarantineOutcome.already_applied
    else if n == 3
    then decoded QuarantineOutcome.stale_control
    else if n == 4
    then decoded QuarantineOutcome.not_found
    else bad unknown_outcome

unfoldable pub cursor_disposition_from : ℕ → Decoded CursorTransitionDisposition
cursor_disposition_from n =
    if n == 1
    then decoded CursorTransitionDisposition.applied
    else if n == 2
    then decoded CursorTransitionDisposition.idempotent
    else if n == 3
    then decoded CursorTransitionDisposition.slot_resolved_refresh
    else if n == 4
    then decoded CursorTransitionDisposition.stale_control_refresh
    else if n == 5
    then decoded CursorTransitionDisposition.cadence_semantics_mismatch
    else bad unknown_disposition

-- An unset disposition is none.
unfoldable pub fire_disposition_from : ℕ → Decoded (Option FireDisposition)
fire_disposition_from n =
    if n == 0
    then decoded none
    else if n == 1
    then decoded (some FireDisposition.accepted)
    else if n == 2
    then decoded (some FireDisposition.retryable_or_ambiguous)
    else if n == 3
    then decoded (some FireDisposition.terminal_quarantined)
    else if n == 4
    then decoded (some FireDisposition.slot_resolved_refresh)
    else if n == 5
    then decoded (some FireDisposition.stale_control_refresh)
    else if n == 6
    then decoded (some FireDisposition.legacy_upgrade_required)
    else if n == 7
    then decoded (some FireDisposition.cadence_semantics_mismatch)
    else bad unknown_disposition

abbrev pub watch_format_version : ℕ
watch_format_version = 1

module _ (w : Codec) where
  unfoldable pub change_from : ChangeMessage → Decoded Frame
  change_from m =
      if m.kind == 1
      then (do
        e ← entry_from_pb w m.schedule
        project ← uuid w m.project_id
        decoded (
            change (record {
              kind = upsert;
              revision = m.revision;
              project_id = project;
              schedule = some e;
              deleted_id = none;
            })))
      else if m.kind == 2
      then (do
        project ← uuid w m.project_id
        deleted ← uuid w m.deleted_id
        decoded (
            change (record {
              kind = tombstone;
              revision = m.revision;
              project_id = project;
              schedule = none;
              deleted_id = some deleted;
            })))
      else bad unknown_change

  unfoldable pub frame_from : FrameBody → Decoded Frame
  frame_from no_frame = bad empty_frame
  frame_from (change_frame m) = change_from m
  frame_from (scanned_through n server) =
      decoded (scanned (record { revision = n; server_revision = server }))

  unfoldable pub watch_frame_from_pb : WatchFrameMessage → Decoded Frame
  watch_frame_from_pb m =
      require (m.format_version == watch_format_version) unsupported_framing >> frame_from m.frame

  -- The state for the project and the schedule that were asked for.
  unfoldable pub state_from : Uuid → Uuid → ℕ → StateBody → Decoded ScheduleStateObservation
  state_from project id revision no_state = bad empty_state
  state_from project id revision (row_state m) = do
    e ← entry_from_pb w m
    require (e.project_id == project && e.id == id) row_escaped
    decoded (record {
      project_id = project;
      schedule_id = id;
      observed_revision = revision;
      schedule = some e;
    })
  state_from project id revision (absence_state p s) = do
    absent_project ← uuid w p
    absent_id ← uuid w s
    require (absent_project == project && absent_id == id) absence_escaped
    decoded (record {
      project_id = absent_project;
      schedule_id = absent_id;
      observed_revision = revision;
      schedule = none;
    })

  unfoldable pub schedule_state_from_pb :
      Uuid → Uuid → ℕ → StateMessage → Decoded ScheduleStateObservation
  schedule_state_from_pb project id minimum m =
      require (leb minimum m.observed_revision && ltb 0 m.observed_revision) below_minimum_revision
      >> state_from project id m.observed_revision m.state

  unfoldable pub parse_quarantine_response : ℕ → ℕ → Decoded QuarantineResult
  parse_quarantine_response outcome revision = do
    o ← outcome_from outcome
    require (ltb 0 revision) lacks_observed_revision
    decoded (record { outcome = o; observed_revision = revision })

  unfoldable pub parse_advance_cursor_response : CursorMessage → Decoded CursorTransitionResult
  parse_advance_cursor_response m = do
    d ← cursor_disposition_from m.disposition
    require (non_empty m.live_control_token && ltb 0 m.live_revision) lacks_live_control
    token ← uuid w m.live_control_token
    require (not (is_committed d) || ltb 0 m.committed_revision) lacks_committed_revision
    decoded (record {
      disposition = d;
      committed_revision = m.committed_revision;
      committed_last_run_at = field_instant m.committed_last_run_at;
      committed_next_run_at = field_instant m.committed_next_run_at;
      live_control_token = token;
      live_revision = m.live_revision;
      live_last_run_at = field_instant m.live_last_run_at;
      live_next_run_at = field_instant m.live_next_run_at;
      error_code = optional_text m.error_code;
      error_message = optional_text m.error_message;
    })

  unfoldable pub parse_fire_response : FireResponse → Decoded FireResult
  parse_fire_response m = do
    d ← fire_disposition_from m.disposition
    token ← optional_uuid w m.live_control_token
    command ← optional_uuid w m.command_id
    decoded (record {
      command_id = command;
      error_code = optional_text m.error_code;
      error_message = optional_text m.error_message;
      buffered = m.buffered;
      disposition = d;
      acceptance_revision = m.acceptance_revision;
      accepted_last_run_at = field_instant m.accepted_last_run_at;
      accepted_next_run_at = field_instant m.accepted_next_run_at;
      live_control_token = token;
      live_revision = m.live_revision;
      live_last_run_at = field_instant m.live_last_run_at;
      live_next_run_at = field_instant m.live_next_run_at;
    })
