-- ===== src/Cache/Fixtures.antt =====
-- storage/cache.py: a cache with two rows of one project, for the tests.
use z4j_scheduler.Prelude.{
  ℕ, ◌≡◌, refl, Bool, true, none, some, List, [], ◌∷◌, Text, codes, text_eq,
}
use z4j_scheduler.Entry.{Uuid, ScheduleEntry, ScheduleKind, CatchUpPolicy}
use z4j_scheduler.Cache.State.{Cache, empty_cache}
use z4j_scheduler.Cache.Snapshot.{
  ScheduleSnapshot, any_conflict, apply_completed_snapshot, compact, current_watermark,
  distinct_values, drop_missing, finish_snapshot, frame_fault, install_snapshot, repause, row_ids,
  set_watermark, settle_pauses,
}
use z4j_scheduler.Cache.Invariant.{IsWellFormed}
use z4j_scheduler.Cache.Cursor.{Transition, advance_row, apply_cursor_transition}
use z4j_scheduler.Cache.Calls.{Call, empty-IsWellFormed, run-IsWellFormed, perform, run}
use z4j_scheduler.Dict.{add, contains, discard, get, get_or, pop, put, values}
use z4j_scheduler.Cache.Watch.{
  apply_watch_update, apply_watch_update_locked, apply_watch_updates, for_each, install_row,
  known_revision, merge_fire_state, remember, upsert, upsert_locked, upsert_many, watch_verdict,
  watermark, well_shaped,
}
use z4j_scheduler.Cache.Deletes.{
  apply_observed_absence, apply_tombstone, clear, forget_evidence, forget_local, pause_and_report,
  pause_for_tombstone_pressure_locked, post_watermark_tombstone_count_locked, record_absence,
  remove, remove_row, report_tombstone_pressure, tombstones_in,
}
use z4j_scheduler.Cache.Latches.{
  apply_current_stop_locked, apply_local_quarantine_locked, latch_current_stop, quarantine_locally,
  release_current_stop, stop_is_superseded,
}
use z4j_scheduler.Cache.Rows.{
  decrement_project_locked, decremented, increment_project_locked, incremented, remove_entry_locked,
  store_entry_locked, write_entry,
}

abbrev pub row : Uuid → Uuid → ℕ → Bool → ScheduleEntry
row id project revision enabled = record {
  id = id;
  project_id = project;
  kind = ScheduleKind.interval;
  expression = codes "5m";
  timezone = codes "UTC";
  is_enabled = enabled;
  catch_up = CatchUpPolicy.skip;
  anchor_at = 0;
  last_fire_at = none;
  name = codes "report";
  engine = codes "celery";
  next_fire_at = some 300;
  control_token = some 7;
  schedule_revision = revision;
  definition_digest = codes "d";
  cadence_semantics_version = 1;
  cadence_runtime_fingerprint = codes "f";
}

abbrev pub checksum : ScheduleSnapshot → Text
checksum s = s.watermark ∷ []

-- Two enabled rows of project 5.
abbrev pub two_calls : List Call
two_calls = Call.apply_watch_update (row 1 5 3 true) ∷ Call.apply_watch_update (row 2 5 4 true) ∷ []

abbrev pub two_rows : Cache
two_rows = run checksum two_calls (empty_cache 3)

pub two_rows-IsWellFormed : IsWellFormed two_rows
two_rows-IsWellFormed = run-IsWellFormed checksum two_calls (empty_cache 3) (empty-IsWellFormed 3)

pub first_row : get two_rows.entries 1 ≡ some (row 1 5 3 true)
unfolding add contains discard get get_or pop put values advance_row apply_cursor_transition
    apply_watch_update apply_watch_update_locked apply_watch_updates for_each install_row
    known_revision merge_fire_state remember upsert upsert_locked upsert_many watch_verdict
    watermark well_shaped apply_observed_absence apply_tombstone clear forget_evidence forget_local
    pause_and_report pause_for_tombstone_pressure_locked post_watermark_tombstone_count_locked
    record_absence remove remove_row report_tombstone_pressure tombstones_in perform run
    apply_current_stop_locked apply_local_quarantine_locked latch_current_stop quarantine_locally
    release_current_stop stop_is_superseded any_conflict apply_completed_snapshot compact
    current_watermark distinct_values drop_missing finish_snapshot frame_fault install_snapshot
    repause row_ids set_watermark settle_pauses text_eq decrement_project_locked decremented
    increment_project_locked incremented remove_entry_locked store_entry_locked write_entry
first_row = refl

abbrev pub fired : Transition
fired = record {
  expected_control_token = 7;
  expected_revision = 3;
  expected_last_run_at = none;
  expected_next_run_at = some 300;
  committed_revision = 4;
  committed_last_run_at = some 300;
  committed_next_run_at = some 600;
}
