-- ===== src/Cache/Tests.antt =====
-- storage/cache.py: calls and snapshots on two rows of one project.
use z4j_scheduler.Prelude.{◌≤◌, ◌<◌, ◌≡◌, refl, true, some, List, [], ◌∷◌, ◌⊎◌, arith, All, text_eq}
use z4j_scheduler.Cache.State.{Cache, ok, raise, empty_cache, snapshot_duplicate}
use z4j_scheduler.Cache.Rows.{
  count_for_project, decrement_project_locked, decremented, increment_project_locked, incremented,
  remove_entry_locked, store_entry_locked, write_entry,
}
use z4j_scheduler.Cache.Rows.Counts.{in_project}
use z4j_scheduler.Dict.Distinct.{tally}
use z4j_scheduler.Cache.Latches.{
  apply_current_stop_locked, apply_local_quarantine_locked, latch_current_stop, quarantine_locally,
  release_current_stop, stop_is_superseded,
}
use z4j_scheduler.Cache.Watch.{
  apply_watch_update, apply_watch_update_locked, apply_watch_updates, for_each, install_row,
  known_revision, merge_fire_state, remember, upsert, upsert_locked, upsert_many, watch_verdict,
  watermark, well_shaped,
}
use z4j_scheduler.Cache.Cursor.{advance_row, apply_cursor_transition}
use z4j_scheduler.Cache.Snapshot.{
  ScheduleSnapshot, any_conflict, apply_completed_snapshot, compact, current_watermark,
  distinct_values, drop_missing, finish_snapshot, frame_fault, install_snapshot, repause, row_ids,
  set_watermark, settle_pauses,
}
use z4j_scheduler.Cache.Snapshot.Atomic.{NoMove, snapshot_atomic}
use z4j_scheduler.Cache.Snapshot.Reconcile.{snapshot_exact}
use z4j_scheduler.Cache.Invariant.{IsWellFormed}
use z4j_scheduler.Cache.Calls.{Call, run-IsWellFormed, run-counts, perform, run}
use z4j_scheduler.Cache.Calls.Steps.{IsOrdered}
use z4j_scheduler.Cache.Calls.Order.{run_mono, tombstone-final}
use z4j_scheduler.Cache.Fixtures.{row, checksum, two_calls, two_rows, two_rows-IsWellFormed}
use z4j_scheduler.Dict.{add, contains, discard, get, get_or, pop, put, values}
use z4j_scheduler.Cache.Deletes.{
  apply_observed_absence, apply_tombstone, clear, forget_evidence, forget_local, pause_and_report,
  pause_for_tombstone_pressure_locked, post_watermark_tombstone_count_locked, record_absence,
  remove, remove_row, report_tombstone_pressure, tombstones_in,
}

abbrev later_calls : List Call
later_calls =
    Call.apply_watch_update (row 2 5 8 true)
    ∷ Call.latch_current_stop 2 7 8
    ∷ Call.apply_observed_absence 3 5 9
    ∷ []

later-IsOrdered : All IsOrdered later_calls
later-IsOrdered = (tt, (tt, (tt, tt)))

run-IsWellFormed_example : IsWellFormed (run checksum later_calls two_rows)
run-IsWellFormed_example = run-IsWellFormed checksum later_calls two_rows two_rows-IsWellFormed

run-counts_example :
    count_for_project (run checksum two_calls (empty_cache 3)) 5
    ≡ tally (in_project 5) (run checksum two_calls (empty_cache 3)).entries
run-counts_example = run-counts checksum two_calls 3 5

run-mono_example : known_revision two_rows 2 ≤ known_revision (run checksum later_calls two_rows) 2
run-mono_example = run_mono checksum later_calls two_rows 2 later-IsOrdered two_rows-IsWellFormed

abbrev deleted : Cache
deleted = (apply_tombstone 1 5 6 two_rows).0

deleted_done : apply_tombstone 1 5 6 two_rows ≡ (deleted, ok true)
unfolding add contains discard get get_or pop put values advance_row apply_cursor_transition
    apply_watch_update apply_watch_update_locked apply_watch_updates for_each install_row
    known_revision merge_fire_state remember upsert upsert_locked upsert_many watch_verdict
    watermark well_shaped apply_observed_absence apply_tombstone clear forget_evidence forget_local
    pause_and_report pause_for_tombstone_pressure_locked post_watermark_tombstone_count_locked
    record_absence remove remove_row report_tombstone_pressure tombstones_in perform run
    apply_current_stop_locked apply_local_quarantine_locked latch_current_stop quarantine_locally
    release_current_stop stop_is_superseded any_conflict apply_completed_snapshot compact
    current_watermark distinct_values drop_missing finish_snapshot frame_fault install_snapshot
    repause row_ids set_watermark settle_pauses text_eq decrement_project_locked decremented
    increment_project_locked incremented remove_entry_locked store_entry_locked write_entry
deleted_done = refl

tombstone-final_example :
    (apply_watch_update_locked (row 1 5 4 true) (run checksum later_calls deleted)).0
    ≡ run checksum later_calls deleted
tombstone-final_example =
    tombstone-final checksum 1 5 6 two_rows deleted later_calls (row 1 5 4 true)
      two_rows-IsWellFormed deleted_done later-IsOrdered refl refl (omega arith)

abbrev repeated : ScheduleSnapshot
repeated = record {
  snapshot_id = 1;
  project_id = some 5;
  watermark = 9;
  rows = row 1 5 8 true ∷ row 1 5 8 true ∷ [];
  digest = 9 ∷ [];
}

repeated_raises : (apply_completed_snapshot checksum repeated two_rows).1 ≡ raise snapshot_duplicate
unfolding add contains discard get get_or pop put values advance_row apply_cursor_transition
    apply_watch_update apply_watch_update_locked apply_watch_updates for_each install_row
    known_revision merge_fire_state remember upsert upsert_locked upsert_many watch_verdict
    watermark well_shaped apply_observed_absence apply_tombstone clear forget_evidence forget_local
    pause_and_report pause_for_tombstone_pressure_locked post_watermark_tombstone_count_locked
    record_absence remove remove_row report_tombstone_pressure tombstones_in perform run
    apply_current_stop_locked apply_local_quarantine_locked latch_current_stop quarantine_locally
    release_current_stop stop_is_superseded any_conflict apply_completed_snapshot compact
    current_watermark distinct_values drop_missing finish_snapshot frame_fault install_snapshot
    repause row_ids set_watermark settle_pauses text_eq decrement_project_locked decremented
    increment_project_locked incremented remove_entry_locked store_entry_locked write_entry
repeated_raises = refl

repeated-NoMove : NoMove two_rows repeated.rows
unfolding add contains discard get get_or pop put values advance_row apply_cursor_transition
    apply_watch_update apply_watch_update_locked apply_watch_updates for_each install_row
    known_revision merge_fire_state remember upsert upsert_locked upsert_many watch_verdict
    watermark well_shaped apply_observed_absence apply_tombstone clear forget_evidence forget_local
    pause_and_report pause_for_tombstone_pressure_locked post_watermark_tombstone_count_locked
    record_absence remove remove_row report_tombstone_pressure tombstones_in perform run
    apply_current_stop_locked apply_local_quarantine_locked latch_current_stop quarantine_locally
    release_current_stop stop_is_superseded any_conflict apply_completed_snapshot compact
    current_watermark distinct_values drop_missing finish_snapshot frame_fault install_snapshot
    repause row_ids set_watermark settle_pauses text_eq decrement_project_locked decremented
    increment_project_locked incremented remove_entry_locked store_entry_locked write_entry
repeated-NoMove = (refl, (refl, tt))

snapshot_atomic_example : (apply_completed_snapshot checksum repeated two_rows).0 ≡ two_rows
snapshot_atomic_example =
    snapshot_atomic checksum repeated two_rows snapshot_duplicate two_rows-IsWellFormed
      repeated-NoMove repeated_raises

abbrev newer : ScheduleSnapshot
newer = record {
  snapshot_id = 2;
  project_id = some 5;
  watermark = 9;
  rows = row 2 5 8 true ∷ [];
  digest = 9 ∷ [];
}

abbrev after_newer : Cache
after_newer = (apply_completed_snapshot checksum newer two_rows).0

newer_done : apply_completed_snapshot checksum newer two_rows ≡ (after_newer, ok true)
unfolding add contains discard get get_or pop put values advance_row apply_cursor_transition
    apply_watch_update apply_watch_update_locked apply_watch_updates for_each install_row
    known_revision merge_fire_state remember upsert upsert_locked upsert_many watch_verdict
    watermark well_shaped apply_observed_absence apply_tombstone clear forget_evidence forget_local
    pause_and_report pause_for_tombstone_pressure_locked post_watermark_tombstone_count_locked
    record_absence remove remove_row report_tombstone_pressure tombstones_in perform run
    apply_current_stop_locked apply_local_quarantine_locked latch_current_stop quarantine_locally
    release_current_stop stop_is_superseded any_conflict apply_completed_snapshot compact
    current_watermark distinct_values drop_missing finish_snapshot frame_fault install_snapshot
    repause row_ids set_watermark settle_pauses text_eq decrement_project_locked decremented
    increment_project_locked incremented remove_entry_locked store_entry_locked write_entry
newer_done = refl

newer_row : get after_newer.entries 2 ≡ some (row 2 5 8 true)
unfolding add contains discard get get_or pop put values advance_row apply_cursor_transition
    apply_watch_update apply_watch_update_locked apply_watch_updates for_each install_row
    known_revision merge_fire_state remember upsert upsert_locked upsert_many watch_verdict
    watermark well_shaped apply_observed_absence apply_tombstone clear forget_evidence forget_local
    pause_and_report pause_for_tombstone_pressure_locked post_watermark_tombstone_count_locked
    record_absence remove remove_row report_tombstone_pressure tombstones_in perform run
    apply_current_stop_locked apply_local_quarantine_locked latch_current_stop quarantine_locally
    release_current_stop stop_is_superseded any_conflict apply_completed_snapshot compact
    current_watermark distinct_values drop_missing finish_snapshot frame_fault install_snapshot
    repause row_ids set_watermark settle_pauses text_eq decrement_project_locked decremented
    increment_project_locked incremented remove_entry_locked store_entry_locked write_entry
newer_row = refl

snapshot_exact_example :
    (contains (row_ids [] newer.rows) 2 ≡ true) ⊎ (9 < known_revision after_newer 2)
snapshot_exact_example =
    snapshot_exact checksum newer two_rows after_newer 2 (row 2 5 8 true) two_rows-IsWellFormed
      newer_done newer_row refl
