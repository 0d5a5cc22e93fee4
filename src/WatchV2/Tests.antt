-- ===== src/WatchV2/Tests.antt =====
-- storage/_watch_v2.py: a frame applied to a cache with two rows.
use z4j_scheduler.Prelude.{◌≡◌, refl, true, none, some, text_eq}
use z4j_scheduler.Cache.State.{ok}
use z4j_scheduler.WatchV2.{
  OrderedWatchApplier, Frame, change, ScheduleChangeKind, apply, apply_change, apply_upsert,
}
use z4j_scheduler.WatchV2.Outcome.{Outcome, apply-Outcome}
use z4j_scheduler.Cache.Fixtures.{row, two_rows, two_rows-IsWellFormed}
use z4j_scheduler.Dict.{add, contains, discard, get, get_or, pop, put, values}
use z4j_scheduler.Cache.Cursor.{advance_row, apply_cursor_transition}
use z4j_scheduler.Cache.Watch.{
  apply_watch_update, apply_watch_update_locked, apply_watch_updates, for_each, install_row,
  known_revision, merge_fire_state, remember, upsert, upsert_locked, upsert_many, watch_verdict,
  watermark, well_shaped,
}
use z4j_scheduler.Cache.Deletes.{
  apply_observed_absence, apply_tombstone, clear, forget_evidence, forget_local, pause_and_report,
  pause_for_tombstone_pressure_locked, post_watermark_tombstone_count_locked, record_absence,
  remove, remove_row, report_tombstone_pressure, tombstones_in,
}
use z4j_scheduler.Cache.Calls.{perform, run}
use z4j_scheduler.Cache.Latches.{
  apply_current_stop_locked, apply_local_quarantine_locked, latch_current_stop, quarantine_locally,
  release_current_stop, stop_is_superseded,
}
use z4j_scheduler.Cache.Snapshot.{
  any_conflict, apply_completed_snapshot, compact, current_watermark, distinct_values, drop_missing,
  finish_snapshot, frame_fault, install_snapshot, repause, row_ids, set_watermark, settle_pauses,
}
use z4j_scheduler.Cache.Rows.{
  decrement_project_locked, decremented, increment_project_locked, incremented, remove_entry_locked,
  store_entry_locked, write_entry,
}

abbrev scoped : OrderedWatchApplier
scoped = record { cache = two_rows; project_id = some 5; cursor = 4 }

abbrev update : Frame
update = change (record {
  kind = ScheduleChangeKind.upsert;
  revision = 8;
  project_id = 5;
  schedule = some (row 2 5 8 true);
  deleted_id = none;
})

apply-Outcome_example : Outcome 8 scoped (apply update scoped)
apply-Outcome_example = apply-Outcome update scoped two_rows-IsWellFormed

update_applied : (apply update scoped).1 ≡ ok tt
unfolding add contains discard get get_or pop put values advance_row apply_cursor_transition
    apply_watch_update apply_watch_update_locked apply_watch_updates for_each install_row
    known_revision merge_fire_state remember upsert upsert_locked upsert_many watch_verdict
    watermark well_shaped apply_observed_absence apply_tombstone clear forget_evidence forget_local
    pause_and_report pause_for_tombstone_pressure_locked post_watermark_tombstone_count_locked
    record_absence remove remove_row report_tombstone_pressure tombstones_in perform run
    apply_current_stop_locked apply_local_quarantine_locked latch_current_stop quarantine_locally
    release_current_stop stop_is_superseded any_conflict apply_completed_snapshot compact
    current_watermark distinct_values drop_missing finish_snapshot frame_fault install_snapshot
    repause row_ids set_watermark settle_pauses text_eq decrement_project_locked decremented
    increment_project_locked incremented remove_entry_locked store_entry_locked write_entry apply
    apply_change apply_upsert
update_applied = refl
