-- ===== src/Cache/Watch/Tests.antt =====
-- storage/cache.py: updates, latches, cursors and reads on two rows of one project.
use z4j_scheduler.Prelude.{◌≡◌, ◌⊎◌, ◌↔◌, refl, true, not, ◌&&◌, none, some, text_eq}
use z4j_scheduler.Entry.{ScheduleEntry}
use z4j_scheduler.Cache.State.{ok}
use z4j_scheduler.Cache.Rows.{
  decrement_project_locked, decremented, increment_project_locked, incremented, remove_entry_locked,
  store_entry_locked, write_entry,
}
use z4j_scheduler.Cache.Latches.{
  apply_current_stop_locked, apply_local_quarantine_locked, latch_current_stop, quarantine_locally,
  release_current_stop, stop_is_superseded,
}
use z4j_scheduler.Cache.Watch.{
  accept, apply_watch_update, apply_watch_update_locked, apply_watch_updates, for_each, install_row,
  known_revision, merge_fire_state, remember, upsert, upsert_locked, upsert_many, watch_verdict,
  watermark, well_shaped,
}
use z4j_scheduler.Cache.Watch.Order.{watch_update_idem}
use z4j_scheduler.Cache.Watch.Clamp.{
  watch_update-enabled, release-latch, quarantine_holds, stop_holds,
}
use z4j_scheduler.Cache.Cursor.{advance_row, apply_cursor_transition}
use z4j_scheduler.Cache.Snapshot.{
  any_conflict, apply_completed_snapshot, compact, current_watermark, distinct_values, drop_missing,
  finish_snapshot, frame_fault, install_snapshot, repause, row_ids, set_watermark, settle_pauses,
}
use z4j_scheduler.Cache.Invariant.Advancing.{transition_once}
use z4j_scheduler.Cache.Due.{all_due, next_due, sorted, where_true, is_candidate}
use z4j_scheduler.Cache.Due.Order.{IsSorted, Has, IsDue, head, all_due-sorts, next_due-head}
use z4j_scheduler.Cache.Calls.{perform, run}
use z4j_scheduler.Cache.Fixtures.{row, two_rows, two_rows-IsWellFormed, first_row, fired}
use z4j_scheduler.Dict.{add, contains, discard, get, get_or, pop, put, values}
use z4j_scheduler.Cache.Deletes.{
  apply_observed_absence, apply_tombstone, clear, forget_evidence, forget_local, pause_and_report,
  pause_for_tombstone_pressure_locked, post_watermark_tombstone_count_locked, record_absence,
  remove, remove_row, report_tombstone_pressure, tombstones_in,
}

update_done : (apply_watch_update_locked (row 2 5 8 true) two_rows).1 ≡ ok tt
unfolding add contains discard get get_or pop put values advance_row apply_cursor_transition
    apply_watch_update apply_watch_update_locked apply_watch_updates for_each install_row
    known_revision merge_fire_state remember upsert upsert_locked upsert_many watch_verdict
    watermark well_shaped apply_observed_absence apply_tombstone clear forget_evidence forget_local
    pause_and_report pause_for_tombstone_pressure_locked post_watermark_tombstone_count_locked
    record_absence remove remove_row report_tombstone_pressure tombstones_in perform run
    apply_current_stop_locked apply_local_quarantine_locked latch_current_stop quarantine_locally
    release_current_stop stop_is_superseded any_conflict apply_completed_snapshot compact
    current_watermark distinct_values drop_missing finish_snapshot frame_fault install_snapshot
    repause row_ids set_watermark settle_pauses text_eq decrement_project_locked decremented
    increment_project_locked incremented remove_entry_locked store_entry_locked write_entry
update_done = refl

watch_update_idem_example :
    apply_watch_update_locked
      (row 2 5 8 true)
      (apply_watch_update_locked (row 2 5 8 true) two_rows).0
    ≡ ((apply_watch_update_locked (row 2 5 8 true) two_rows).0, ok tt)
watch_update_idem_example =
    watch_update_idem two_rows (row 2 5 8 true) two_rows-IsWellFormed refl update_done

update_accepted_here : watch_verdict two_rows (row 2 5 8 true) ≡ accept
unfolding add contains discard get get_or pop put values advance_row apply_cursor_transition
    apply_watch_update apply_watch_update_locked apply_watch_updates for_each install_row
    known_revision merge_fire_state remember upsert upsert_locked upsert_many watch_verdict
    watermark well_shaped apply_observed_absence apply_tombstone clear forget_evidence forget_local
    pause_and_report pause_for_tombstone_pressure_locked post_watermark_tombstone_count_locked
    record_absence remove remove_row report_tombstone_pressure tombstones_in perform run
    apply_current_stop_locked apply_local_quarantine_locked latch_current_stop quarantine_locally
    release_current_stop stop_is_superseded any_conflict apply_completed_snapshot compact
    current_watermark distinct_values drop_missing finish_snapshot frame_fault install_snapshot
    repause row_ids set_watermark settle_pauses text_eq decrement_project_locked decremented
    increment_project_locked incremented remove_entry_locked store_entry_locked write_entry
update_accepted_here = refl

watch_update-enabled_example :
    (x : ScheduleEntry) × (get (apply_watch_update_locked (row 2 5 8 true) two_rows).0.entries 2
      ≡ some x)
    × (x.is_enabled ≡ (
        true
        && not (quarantine_holds two_rows (row 2 5 8 true))
        && not (stop_holds two_rows (row 2 5 8 true))))
watch_update-enabled_example =
    watch_update-enabled two_rows (row 2 5 8 true) two_rows-IsWellFormed update_accepted_here

latch_done : (latch_current_stop 1 7 4 two_rows).1 ≡ true
unfolding add contains discard get get_or pop put values advance_row apply_cursor_transition
    apply_watch_update apply_watch_update_locked apply_watch_updates for_each install_row
    known_revision merge_fire_state remember upsert upsert_locked upsert_many watch_verdict
    watermark well_shaped apply_observed_absence apply_tombstone clear forget_evidence forget_local
    pause_and_report pause_for_tombstone_pressure_locked post_watermark_tombstone_count_locked
    record_absence remove remove_row report_tombstone_pressure tombstones_in perform run
    apply_current_stop_locked apply_local_quarantine_locked latch_current_stop quarantine_locally
    release_current_stop stop_is_superseded any_conflict apply_completed_snapshot compact
    current_watermark distinct_values drop_missing finish_snapshot frame_fault install_snapshot
    repause row_ids set_watermark settle_pauses text_eq decrement_project_locked decremented
    increment_project_locked incremented remove_entry_locked store_entry_locked write_entry
latch_done = refl

release-latch_example :
    ((release_current_stop 1 7 (latch_current_stop 1 7 4 two_rows).0).1 ≡ true)
    × ((release_current_stop 1 7 (latch_current_stop 1 7 4 two_rows).0).0.entries
        ≡ two_rows.entries)
release-latch_example = release-latch two_rows 1 7 4 latch_done

transition_once_example :
    ((apply_cursor_transition 1 fired two_rows).0 ≡ two_rows)
    ⊎ ((apply_cursor_transition 1 fired (apply_cursor_transition 1 fired two_rows).0).0
        ≡ (apply_cursor_transition 1 fired two_rows).0)
transition_once_example = transition_once 1 fired fired two_rows (row 1 5 3 true) first_row refl

all_due-sorts_example :
    IsSorted (all_due 300 two_rows)
    × (Has (row 1 5 3 true) (all_due 300 two_rows)
        ↔ (Has (row 1 5 3 true) (values two_rows.entries) × IsDue 300 two_rows (row 1 5 3 true)))
all_due-sorts_example = all_due-sorts 300 two_rows (row 1 5 3 true)

next_due-head_example :
    (next_due (some 300) two_rows ≡ head (all_due 300 two_rows))
    × (next_due none two_rows
        ≡ head (sorted (where_true (is_candidate two_rows) (values two_rows.entries))))
next_due-head_example = next_due-head 300 two_rows
