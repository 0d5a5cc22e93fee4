-- ===== src/Cache/Snapshot/Tests.antt =====
-- storage/cache.py: a snapshot whose second row moves a cached row.
use z4j_scheduler.Prelude.{◌≡◌, refl, true, false, none, some, [], ◌∷◌, text_eq_refl, ltb, text_eq}
use z4j_scheduler.Cache.State.{raise, project_moved}
use z4j_scheduler.Cache.Snapshot.Halfway.{snapshot_halfway, held_back}
use z4j_scheduler.Cache.Watch.{
  has_moved, accept, apply_watch_update, apply_watch_update_locked, apply_watch_updates, for_each,
  install_row, known_revision, merge_fire_state, remember, upsert, upsert_locked, upsert_many,
  watch_verdict, watermark, well_shaped,
}
use z4j_scheduler.Cache.Calls.{perform, run}
use z4j_scheduler.Cache.Snapshot.{
  ScheduleSnapshot, any_conflict, apply_completed_snapshot, compact, current_watermark,
  distinct_values, drop_missing, finish_snapshot, frame_fault, install_snapshot, repause, row_ids,
  set_watermark, settle_pauses,
}
use z4j_scheduler.Cache.Fixtures.{row, checksum, two_rows, two_rows-IsWellFormed}
use z4j_scheduler.Dict.{add, contains, discard, get, get_or, pop, put, values}
use z4j_scheduler.Cache.Cursor.{advance_row, apply_cursor_transition}
use z4j_scheduler.Cache.Deletes.{
  apply_observed_absence, apply_tombstone, clear, forget_evidence, forget_local, pause_and_report,
  pause_for_tombstone_pressure_locked, post_watermark_tombstone_count_locked, record_absence,
  remove, remove_row, report_tombstone_pressure, tombstones_in,
}
use z4j_scheduler.Cache.Latches.{
  apply_current_stop_locked, apply_local_quarantine_locked, latch_current_stop, quarantine_locally,
  release_current_stop, stop_is_superseded,
}
use z4j_scheduler.Cache.Rows.{
  decrement_project_locked, decremented, increment_project_locked, incremented, remove_entry_locked,
  store_entry_locked, write_entry,
}

abbrev moving : ScheduleSnapshot
moving = record {
  snapshot_id = 3;
  project_id = none;
  watermark = 9;
  rows = row 2 5 8 true ∷ row 1 6 9 true ∷ [];
  digest = 9 ∷ [];
}

moving_frames : frame_fault moving [] moving.rows ≡ none
unfolding add contains discard get get_or pop put values advance_row apply_cursor_transition
    apply_watch_update apply_watch_update_locked apply_watch_updates for_each install_row
    known_revision merge_fire_state remember upsert upsert_locked upsert_many watch_verdict
    watermark well_shaped apply_observed_absence apply_tombstone clear forget_evidence forget_local
    pause_and_report pause_for_tombstone_pressure_locked post_watermark_tombstone_count_locked
    record_absence remove remove_row report_tombstone_pressure tombstones_in perform run
    apply_current_stop_locked apply_local_quarantine_locked latch_current_stop quarantine_locally
    release_current_stop stop_is_superseded any_conflict apply_completed_snapshot compact
    current_watermark distinct_values drop_missing finish_snapshot frame_fault install_snapshot
    repause row_ids set_watermark settle_pauses text_eq decrement_project_locked decremented
    increment_project_locked incremented remove_entry_locked store_entry_locked write_entry
moving_frames = refl

moving_current : ltb 9 (current_watermark moving two_rows) ≡ false
unfolding add contains discard get get_or pop put values advance_row apply_cursor_transition
    apply_watch_update apply_watch_update_locked apply_watch_updates for_each install_row
    known_revision merge_fire_state remember upsert upsert_locked upsert_many watch_verdict
    watermark well_shaped apply_observed_absence apply_tombstone clear forget_evidence forget_local
    pause_and_report pause_for_tombstone_pressure_locked post_watermark_tombstone_count_locked
    record_absence remove remove_row report_tombstone_pressure tombstones_in perform run
    apply_current_stop_locked apply_local_quarantine_locked latch_current_stop quarantine_locally
    release_current_stop stop_is_superseded any_conflict apply_completed_snapshot compact
    current_watermark distinct_values drop_missing finish_snapshot frame_fault install_snapshot
    repause row_ids set_watermark settle_pauses text_eq decrement_project_locked decremented
    increment_project_locked incremented remove_entry_locked store_entry_locked write_entry
moving_current = refl

moving_agrees : any_conflict two_rows moving.rows ≡ false
unfolding add contains discard get get_or pop put values advance_row apply_cursor_transition
    apply_watch_update apply_watch_update_locked apply_watch_updates for_each install_row
    known_revision merge_fire_state remember upsert upsert_locked upsert_many watch_verdict
    watermark well_shaped apply_observed_absence apply_tombstone clear forget_evidence forget_local
    pause_and_report pause_for_tombstone_pressure_locked post_watermark_tombstone_count_locked
    record_absence remove remove_row report_tombstone_pressure tombstones_in perform run
    apply_current_stop_locked apply_local_quarantine_locked latch_current_stop quarantine_locally
    release_current_stop stop_is_superseded any_conflict apply_completed_snapshot compact
    current_watermark distinct_values drop_missing finish_snapshot frame_fault install_snapshot
    repause row_ids set_watermark settle_pauses text_eq decrement_project_locked decremented
    increment_project_locked incremented remove_entry_locked store_entry_locked write_entry
moving_agrees = refl

moving_taken : watch_verdict two_rows (row 2 5 8 true) ≡ accept
unfolding add contains discard get get_or pop put values advance_row apply_cursor_transition
    apply_watch_update apply_watch_update_locked apply_watch_updates for_each install_row
    known_revision merge_fire_state remember upsert upsert_locked upsert_many watch_verdict
    watermark well_shaped apply_observed_absence apply_tombstone clear forget_evidence forget_local
    pause_and_report pause_for_tombstone_pressure_locked post_watermark_tombstone_count_locked
    record_absence remove remove_row report_tombstone_pressure tombstones_in perform run
    apply_current_stop_locked apply_local_quarantine_locked latch_current_stop quarantine_locally
    release_current_stop stop_is_superseded any_conflict apply_completed_snapshot compact
    current_watermark distinct_values drop_missing finish_snapshot frame_fault install_snapshot
    repause row_ids set_watermark settle_pauses text_eq decrement_project_locked decremented
    increment_project_locked incremented remove_entry_locked store_entry_locked write_entry
moving_taken = refl

moving_moves : has_moved (get two_rows.entries 1) (row 1 6 9 true) ≡ true
unfolding add contains discard get get_or pop put values advance_row apply_cursor_transition
    apply_watch_update apply_watch_update_locked apply_watch_updates for_each install_row
    known_revision merge_fire_state remember upsert upsert_locked upsert_many watch_verdict
    watermark well_shaped apply_observed_absence apply_tombstone clear forget_evidence forget_local
    pause_and_report pause_for_tombstone_pressure_locked post_watermark_tombstone_count_locked
    record_absence remove remove_row report_tombstone_pressure tombstones_in perform run
    apply_current_stop_locked apply_local_quarantine_locked latch_current_stop quarantine_locally
    release_current_stop stop_is_superseded any_conflict apply_completed_snapshot compact
    current_watermark distinct_values drop_missing finish_snapshot frame_fault install_snapshot
    repause row_ids set_watermark settle_pauses text_eq decrement_project_locked decremented
    increment_project_locked incremented remove_entry_locked store_entry_locked write_entry
moving_moves = refl

snapshot_halfway_example :
    ((apply_completed_snapshot checksum moving two_rows).1 ≡ raise project_moved)
    × (get (apply_completed_snapshot checksum moving two_rows).0.entries 2
        ≡ some (held_back two_rows (merge_fire_state two_rows (row 2 5 8 true))))
snapshot_halfway_example =
    snapshot_halfway checksum moving two_rows (row 2 5 8 true) (row 1 6 9 true) []
      two_rows-IsWellFormed refl (text_eq_refl (9 ∷ [])) moving_frames moving_current moving_agrees
      moving_taken moving_moves
