-- ===== src/Convert.antt =====
-- storage/_convert.py: the wire messages of proto/scheduler.proto, with the fields that the code reads or
-- writes, and the conversion of schedules.
pub mod Floats
pub mod Messages
pub mod Requests
pub mod Shaped
pub mod Returned
pub mod Observed
pub mod Tests
use z4j_scheduler.Prelude.{
  ℕ, ◌+◌, ◌*◌, ◌/◌, ◌%◌, Bool, true, false, not, Option, none, some, List, [], ◌∷◌, Text, codes,
  text_eq, non_empty, ◌==◌, ◌&&◌, ◌||◌, ltb, if◌then◌else◌, is_some, is_none,
}
use z4j_scheduler.Convert.Floats.{from_timestamp}
use z4j_scheduler.Entry.{
  Uuid, Instant, ScheduleKind, cron, interval, clocked, one_shot, solar, CatchUpPolicy, skip,
  fire_one_missed, fire_all_missed, ScheduleEntry,
}

-- `google.protobuf.Timestamp` from the epoch on.
pub record Timestamp : Type 0 where
  pub seconds : ℕ
  pub nanos : ℕ

pub record ScheduleMessage : Type 0 where
  pub id : Text
  pub project_id : Text
  pub engine : Text
  pub name : Text
  pub kind : Text
  pub expression : Text
  pub timezone : Text
  pub is_enabled : Bool
  pub catch_up : Text
  pub last_run_at : Timestamp
  pub next_run_at : Timestamp
  pub control_token : Text
  pub schedule_revision : ℕ
  pub definition_digest : Text
  pub cadence_semantics_version : ℕ
  pub cadence_runtime_fingerprint : Text

-- The `ValueError`s of the file.
pub data ConvertError : Type 0 where
  unknown_kind unknown_catch_up not_a_uuid mixed_protocol_fields lacks_next_cursor : ConvertError
  unsupported_framing empty_frame unknown_change : ConvertError
  below_minimum_revision row_escaped absence_escaped empty_state : ConvertError
  unknown_outcome lacks_observed_revision : ConvertError
  unknown_disposition lacks_live_control lacks_committed_revision : ConvertError
  lacks_epoch bad_reason_code detail_too_long lacks_authority slot_mismatch : ConvertError

pub data Decoded (A : Type 0) : Type 0 where
  decoded : A → Decoded A
  bad : ConvertError → Decoded A

infixl 5 ◌>>=◌ ◌>>◌
unfoldable pub ◌>>=◌ : {A B : Type 0} → Decoded A → (A → Decoded B) → Decoded B
decoded a >>= f = f a
bad e >>= f = bad e

abbrev pub ◌>>◌ : {B : Type 0} → Decoded (Unit {0}) → Decoded B → Decoded B
m >> k = m >>= λ _. k

-- if not b: raise ValueError
abbrev pub require : Bool → ConvertError → Decoded (Unit {0})
require b e = if b then decoded tt else bad e

-- The unset message counts as absent.
unfoldable pub ts_to_datetime : Timestamp → Option Instant
ts_to_datetime t =
    if t.seconds == 0 && t.nanos == 0 then none else some (from_timestamp t.seconds t.nanos)

unfoldable pub datetime_to_ts : Option Instant → Timestamp
datetime_to_ts none = record { seconds = 0; nanos = 0 }
datetime_to_ts (some t) = record { seconds = t / 1000000; nanos = t % 1000000 * 1000 }

abbrev pub kind_text : ScheduleKind → Text
kind_text cron = codes "cron"
kind_text interval = codes "interval"
kind_text clocked = codes "clocked"
kind_text one_shot = codes "one_shot"
kind_text solar = codes "solar"

-- The valid kinds. `one_shot` is an alias of `clocked`.
unfoldable pub kind_from : Text → Decoded ScheduleKind
kind_from s =
    if text_eq s (codes "cron")
    then decoded cron
    else if text_eq s (codes "interval")
    then decoded interval
    else if text_eq s (codes "clocked")
    then decoded clocked
    else if text_eq s (codes "solar")
    then decoded solar
    else if text_eq s (codes "one_shot")
    then decoded clocked
    else bad unknown_kind

abbrev pub catch_up_text : CatchUpPolicy → Text
catch_up_text skip = codes "skip"
catch_up_text fire_one_missed = codes "fire_one_missed"
catch_up_text fire_all_missed = codes "fire_all_missed"

-- An empty policy is `skip`.
unfoldable pub catch_up_from : Text → Decoded CatchUpPolicy
catch_up_from s =
    if not (non_empty s)
    then decoded skip
    else if text_eq s (codes "skip")
    then decoded skip
    else if text_eq s (codes "fire_one_missed")
    then decoded fire_one_missed
    else if text_eq s (codes "fire_all_missed")
    then decoded fire_all_missed
    else bad unknown_catch_up

abbrev pub current_semantics : ScheduleMessage → Bool
current_semantics m =
    non_empty m.definition_digest
    && ltb 0 m.cadence_semantics_version
    && non_empty m.cadence_runtime_fingerprint

abbrev pub legacy_semantics : ScheduleMessage → Bool
legacy_semantics m =
    not (non_empty m.definition_digest)
    && m.cadence_semantics_version == 0
    && not (non_empty m.cadence_runtime_fingerprint)

abbrev pub current_protocol : Option Uuid → ScheduleMessage → Bool
current_protocol token m = is_some token && ltb 0 m.schedule_revision && current_semantics m

abbrev pub legacy_protocol : Option Uuid → ScheduleMessage → Bool
legacy_protocol token m = is_none token && m.schedule_revision == 0 && legacy_semantics m

abbrev pub is_clocked : ScheduleKind → Bool
is_clocked clocked = true
is_clocked cron = false
is_clocked interval = false
is_clocked one_shot = false
is_clocked solar = false

-- An enabled current row has a next cursor, or is a one-shot that has fired.
unfoldable pub has_cursor : ScheduleKind → ScheduleMessage → Bool
has_cursor kind m =
    not m.is_enabled
    || is_some (ts_to_datetime m.next_run_at)
    || is_clocked kind && is_some (ts_to_datetime m.last_run_at)

-- `datetime(2000, 1, 1)`
abbrev pub default_anchor : Instant
default_anchor = 946684800000000

-- last or next or the third
abbrev pub anchor_of : Option Instant → Option Instant → Instant → Instant
anchor_of (some t) next third = t
anchor_of none (some t) third = t
anchor_of none none third = third

-- `value or other`
abbrev pub text_or : Text → Text → Text
text_or [] other = other
text_or (c ∷ s) other = c ∷ s

-- The parser of UUIDs, its inverse, and the clock.
pub record Codec : Type 0 where
  pub uuid_of : Text → Option Uuid
  pub str : Uuid → Text
  pub utcnow : Instant

module _ (w : Codec) where
  unfoldable pub uuid : Text → Decoded Uuid
  uuid s = elim (w.uuid_of s) [ none ↦ bad not_a_uuid | some u ↦ decoded u ]

  -- An empty text is no UUID and no error.
  unfoldable pub optional_uuid : Text → Decoded (Option Uuid)
  optional_uuid s = if non_empty s then (uuid s >>= λ u. decoded (some u)) else decoded none

  abbrev pub entry_of :
      ScheduleKind → CatchUpPolicy → Option Uuid → Uuid → Uuid → ScheduleMessage → ScheduleEntry
  entry_of kind catch_up token id project m = record {
    id = id;
    project_id = project;
    kind = kind;
    expression = m.expression;
    timezone = text_or m.timezone (codes "UTC");
    is_enabled = m.is_enabled;
    catch_up = catch_up;
    anchor_at =
        anchor_of (ts_to_datetime m.last_run_at) (ts_to_datetime m.next_run_at)
          (if current_protocol token m then default_anchor else w.utcnow);
    last_fire_at = ts_to_datetime m.last_run_at;
    name = m.name;
    engine = m.engine;
    next_fire_at = ts_to_datetime m.next_run_at;
    control_token = token;
    schedule_revision = m.schedule_revision;
    definition_digest = m.definition_digest;
    cadence_semantics_version = m.cadence_semantics_version;
    cadence_runtime_fingerprint = m.cadence_runtime_fingerprint;
  }

  unfoldable pub entry_from_pb : ScheduleMessage → Decoded ScheduleEntry
  entry_from_pb m = do
    kind ← kind_from m.kind
    catch_up ← catch_up_from m.catch_up
    token ← optional_uuid m.control_token
    require (current_protocol token m || legacy_protocol token m) mixed_protocol_fields
    require (not (current_protocol token m) || has_cursor kind m) lacks_next_cursor
    id ← uuid m.id
    project ← uuid m.project_id
    decoded (entry_of kind catch_up token id project m)

  abbrev pub optional_str : Option Uuid → Text
  optional_str none = []
  optional_str (some u) = w.str u

  -- The name and the engine are not written.
  unfoldable pub entry_to_pb : ScheduleEntry → ScheduleMessage
  entry_to_pb e = record {
    id = w.str e.id;
    project_id = w.str e.project_id;
    engine = [];
    name = [];
    kind = kind_text e.kind;
    expression = e.expression;
    timezone = e.timezone;
    is_enabled = e.is_enabled;
    catch_up = catch_up_text e.catch_up;
    last_run_at = datetime_to_ts e.last_fire_at;
    next_run_at = datetime_to_ts e.next_fire_at;
    control_token = optional_str e.control_token;
    schedule_revision = e.schedule_revision;
    definition_digest = e.definition_digest;
    cadence_semantics_version = e.cadence_semantics_version;
    cadence_runtime_fingerprint = e.cadence_runtime_fingerprint;
  }
