-- ===== src/Convert/Tests.antt =====
-- storage/_convert.py: a row of the current protocol and its message.
use z4j_scheduler.Prelude.{
  ◌≡◌, refl, true, Option, none, some, [], ◌∷◌, Text, codes, text_eq, arith,
}
use z4j_scheduler.Entry.{Uuid, ScheduleEntry, cron, CatchUpPolicy}
use z4j_scheduler.Cache.Watch.{well_shaped}
use z4j_scheduler.Quarantine.{ScheduleStateObservation}
use z4j_scheduler.Convert.{
  ScheduleMessage, Codec, decoded, entry_from_pb, entry_to_pb, uuid, optional_uuid, kind_from,
  catch_up_from, ts_to_datetime, has_cursor, ◌>>=◌,
}
use z4j_scheduler.Convert.Floats.{from_timestamp, micros_of, nearest, quantum, half_even}
use z4j_scheduler.Convert.Messages.{row_state, schedule_state_from_pb, state_from}
use z4j_scheduler.Convert.Shaped.{entry_from_pb-shaped}
use z4j_scheduler.Convert.Returned.{IsCodec, reread, entry_from_pb-to_pb}
use z4j_scheduler.Convert.Observed.{IsObserved, schedule_state-IsObserved}

abbrev first_point : Text → Option Uuid
first_point [] = none
first_point (c ∷ s) = some c

-- A UUID is written as one code point.
abbrev codec : Codec
codec = record { uuid_of = first_point; str = λ u. u ∷ []; utcnow = 5 }

codec-IsCodec : IsCodec codec
codec-IsCodec = record { parses = λ u. refl; written = λ u. refl }

abbrev entry : ScheduleEntry
entry = record {
  id = 1;
  project_id = 5;
  kind = cron;
  expression = codes "* * * * *";
  timezone = codes "UTC";
  is_enabled = true;
  catch_up = CatchUpPolicy.skip;
  anchor_at = 7;
  last_fire_at = some 60000000;
  name = codes "nightly";
  engine = codes "celery";
  next_fire_at = some 120000000;
  control_token = some 7;
  schedule_revision = 3;
  definition_digest = codes "d";
  cadence_semantics_version = 1;
  cadence_runtime_fingerprint = codes "f";
}

entry_from_pb-to_pb_example :
    entry_from_pb codec (entry_to_pb codec entry) ≡ decoded (reread codec entry)
unfolding well_shaped
entry_from_pb-to_pb_example =
    entry_from_pb-to_pb codec entry codec-IsCodec refl refl refl (omega arith, omega arith)
      (omega arith, omega arith)

abbrev message : ScheduleMessage
message = record {
  id = codes "a";
  project_id = codes "b";
  engine = codes "celery";
  name = codes "nightly";
  kind = codes "cron";
  expression = codes "* * * * *";
  timezone = [];
  is_enabled = true;
  catch_up = [];
  last_run_at = record { seconds = 60; nanos = 0 };
  next_run_at = record { seconds = 120; nanos = 1000 };
  control_token = codes "t";
  schedule_revision = 3;
  definition_digest = codes "d";
  cadence_semantics_version = 1;
  cadence_runtime_fingerprint = codes "f";
}

abbrev row : ScheduleEntry
row = record {
  id = 97;
  project_id = 98;
  kind = cron;
  expression = codes "* * * * *";
  timezone = codes "UTC";
  is_enabled = true;
  catch_up = CatchUpPolicy.skip;
  anchor_at = 60000000;
  last_fire_at = some 60000000;
  name = codes "nightly";
  engine = codes "celery";
  next_fire_at = some 120000001;
  control_token = some 116;
  schedule_revision = 3;
  definition_digest = codes "d";
  cadence_semantics_version = 1;
  cadence_runtime_fingerprint = codes "f";
}

entry_from_pb-shaped_example : well_shaped row ≡ true
unfolding entry_from_pb uuid optional_uuid kind_from catch_up_from from_timestamp micros_of nearest
    quantum half_even ts_to_datetime has_cursor ◌>>=◌ text_eq
entry_from_pb-shaped_example = entry_from_pb-shaped codec message row refl

abbrev observation : ScheduleStateObservation
observation = record {
  project_id = 98;
  schedule_id = 97;
  observed_revision = 9;
  schedule = some row;
}

schedule_state-IsObserved_example : IsObserved 98 97 4 observation
unfolding entry_from_pb uuid optional_uuid kind_from catch_up_from from_timestamp micros_of nearest
    quantum half_even ts_to_datetime has_cursor ◌>>=◌ text_eq schedule_state_from_pb state_from
schedule_state-IsObserved_example =
    schedule_state-IsObserved codec 98 97 4
      (record { observed_revision = 9; state = row_state message }) observation refl
