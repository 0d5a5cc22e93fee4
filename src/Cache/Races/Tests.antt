-- ===== src/Cache/Races/Tests.antt =====
-- storage/cache.py: the calls of the parent on concrete caches.
use z4j_scheduler.Prelude.{
  ℕ, ◌<◌, ◌≡◌, refl, Bool, true, false, none, some, [], ◌∷◌, arith, is_some, text_eq,
}
use z4j_scheduler.Cache.State.{Cache, ok, raise, empty_cache, conflicting_update}
use z4j_scheduler.Cache.Invariant.{IsWellFormed}
use z4j_scheduler.Cache.Invariant.Deleting.{Keeps-apply_tombstone}
use z4j_scheduler.Cache.Invariant.Advancing.{advanced}
use z4j_scheduler.Cache.Races.{
  reused_revision_revives, second_stop_forgets, release_lifts_quarantine, echo_conflicts,
}
use z4j_scheduler.Cache.Watch.{
  apply_watch_update, apply_watch_update_locked, apply_watch_updates, for_each, install_row,
  known_revision, merge_fire_state, remember, upsert, upsert_locked, upsert_many, watch_verdict,
  watermark, well_shaped,
}
use z4j_scheduler.Cache.Calls.{Call, perform, run}
use z4j_scheduler.Cache.Snapshot.{
  any_conflict, apply_completed_snapshot, compact, current_watermark, distinct_values, drop_missing,
  finish_snapshot, frame_fault, install_snapshot, repause, row_ids, set_watermark, settle_pauses,
}
use z4j_scheduler.Cache.Fixtures.{row, checksum, two_rows, two_rows-IsWellFormed, first_row, fired}
use z4j_scheduler.Dict.{add, contains, discard, get, get_or, pop, put, values}
use z4j_scheduler.Cache.Cursor.{advance_row, apply_cursor_transition}
use z4j_scheduler.Cache.Deletes.{
  apply_observed_absence, apply_tombstone, clear, forget_evidence, forget_local, pause_and_report,
  pause_for_tombstone_pressure_locked, post_watermark_tombstone_count_locked, record_absence,
  remove, remove_row, report_tombstone_pressure, tombstones_in,
}
use z4j_scheduler.Cache.Latches.{
  apply_current_stop_locked, apply_local_quarantine_locked, latch_current_stop, quarantine_locally,
  release_current_stop, stop_is_superseded,
}
use z4j_scheduler.Cache.Rows.{
  decrement_project_locked, decremented, increment_project_locked, incremented, remove_entry_locked,
  store_entry_locked, write_entry,
}

abbrev deleted : Cache
deleted = (apply_tombstone 1 5 6 two_rows).0

deleted-IsWellFormed : IsWellFormed deleted
deleted-IsWellFormed = (Keeps-apply_tombstone 1 5 6).at two_rows two_rows-IsWellFormed

deleted_row : get deleted.entries 1 ≡ none
unfolding add contains discard get get_or pop put values advance_row apply_cursor_transition
    apply_watch_update apply_watch_update_locked apply_watch_updates for_each install_row
    known_revision merge_fire_state remember upsert upsert_locked upsert_many watch_verdict
    watermark well_shaped apply_observed_absence apply_tombstone clear forget_evidence forget_local
    pause_and_report pause_for_tombstone_pressure_locked post_watermark_tombstone_count_locked
    record_absence remove remove_row report_tombstone_pressure tombstones_in perform run
    apply_current_stop_locked apply_local_quarantine_locked latch_current_stop quarantine_locally
    release_current_stop stop_is_superseded any_conflict apply_completed_snapshot compact
    current_watermark distinct_values drop_missing finish_snapshot frame_fault install_snapshot
    repause row_ids set_watermark settle_pauses text_eq decrement_project_locked decremented
    increment_project_locked incremented remove_entry_locked store_entry_locked write_entry
deleted_row = refl

deleted_known : known_revision deleted 1 ≡ 6
unfolding add contains discard get get_or pop put values advance_row apply_cursor_transition
    apply_watch_update apply_watch_update_locked apply_watch_updates for_each install_row
    known_revision merge_fire_state remember upsert upsert_locked upsert_many watch_verdict
    watermark well_shaped apply_observed_absence apply_tombstone clear forget_evidence forget_local
    pause_and_report pause_for_tombstone_pressure_locked post_watermark_tombstone_count_locked
    record_absence remove remove_row report_tombstone_pressure tombstones_in perform run
    apply_current_stop_locked apply_local_quarantine_locked latch_current_stop quarantine_locally
    release_current_stop stop_is_superseded any_conflict apply_completed_snapshot compact
    current_watermark distinct_values drop_missing finish_snapshot frame_fault install_snapshot
    repause row_ids set_watermark settle_pauses text_eq decrement_project_locked decremented
    increment_project_locked incremented remove_entry_locked store_entry_locked write_entry
deleted_known = refl

row_shape :
    (id project revision : ℕ) (enabled : Bool)
    → 0 < revision
    → well_shaped (row id project revision enabled) ≡ true
unfolding well_shaped
row_shape id project revision enabled h = ground arith

reused_revision_revives_example :
    is_some (get (apply_watch_update_locked (row 1 5 6 true) deleted).0.entries 1) ≡ true
reused_revision_revives_example =
    reused_revision_revives deleted (row 1 5 6 true) deleted-IsWellFormed deleted_row deleted_known
      (row_shape 1 5 6 true (omega arith))

not_superseded : (r : ℕ) → 3 < r → stop_is_superseded 3 r ≡ false
unfolding stop_is_superseded
not_superseded r h = ground arith

second_stop_forgets_example :
    get
      (release_current_stop 1 7
        (latch_current_stop 1 7 5 (latch_current_stop 1 7 4 two_rows).0).0).0.entries
      1
    ≡ some (row 1 5 3 false)
second_stop_forgets_example =
    second_stop_forgets two_rows 1 7 4 5 (row 1 5 3 true) first_row refl
      (not_superseded 4 (omega arith)) (not_superseded 5 (omega arith))

abbrev held_back : Cache
held_back =
    (release_current_stop 1 7
      (quarantine_locally 1 (row 1 5 3 true) [] [] (latch_current_stop 1 7 4 two_rows).0).0).0

release_lifts_quarantine_example :
    (get held_back.entries 1 ≡ some (row 1 5 3 true))
    × (is_some (get held_back.local_quarantines 1) ≡ true)
release_lifts_quarantine_example =
    release_lifts_quarantine two_rows 1 7 4 (row 1 5 3 true) [] [] first_row refl
      (not_superseded 4 (omega arith))

abbrev disabled : Cache
disabled = run checksum (Call.apply_watch_update (row 1 5 3 false) ∷ []) (empty_cache 3)

disabled_row : get disabled.entries 1 ≡ some (row 1 5 3 false)
unfolding add contains discard get get_or pop put values advance_row apply_cursor_transition
    apply_watch_update apply_watch_update_locked apply_watch_updates for_each install_row
    known_revision merge_fire_state remember upsert upsert_locked upsert_many watch_verdict
    watermark well_shaped apply_observed_absence apply_tombstone clear forget_evidence forget_local
    pause_and_report pause_for_tombstone_pressure_locked post_watermark_tombstone_count_locked
    record_absence remove remove_row report_tombstone_pressure tombstones_in perform run
    apply_current_stop_locked apply_local_quarantine_locked latch_current_stop quarantine_locally
    release_current_stop stop_is_superseded any_conflict apply_completed_snapshot compact
    current_watermark distinct_values drop_missing finish_snapshot frame_fault install_snapshot
    repause row_ids set_watermark settle_pauses text_eq decrement_project_locked decremented
    increment_project_locked incremented remove_entry_locked store_entry_locked write_entry
disabled_row = refl

disabled-fired :
    apply_cursor_transition 1 fired disabled
    ≡ (advanced 1 fired (row 1 5 3 false) disabled, ok true)
unfolding add contains discard get get_or pop put values advance_row apply_cursor_transition
    apply_watch_update apply_watch_update_locked apply_watch_updates for_each install_row
    known_revision merge_fire_state remember upsert upsert_locked upsert_many watch_verdict
    watermark well_shaped apply_observed_absence apply_tombstone clear forget_evidence forget_local
    pause_and_report pause_for_tombstone_pressure_locked post_watermark_tombstone_count_locked
    record_absence remove remove_row report_tombstone_pressure tombstones_in perform run
    apply_current_stop_locked apply_local_quarantine_locked latch_current_stop quarantine_locally
    release_current_stop stop_is_superseded any_conflict apply_completed_snapshot compact
    current_watermark distinct_values drop_missing finish_snapshot frame_fault install_snapshot
    repause row_ids set_watermark settle_pauses text_eq decrement_project_locked decremented
    increment_project_locked incremented remove_entry_locked store_entry_locked write_entry
disabled-fired = refl

echo_conflicts_example :
    apply_watch_update_locked (row 1 5 4 true) (apply_cursor_transition 1 fired disabled).0
    ≡ ((apply_cursor_transition 1 fired disabled).0, raise conflicting_update)
echo_conflicts_example =
    echo_conflicts disabled 1 fired (row 1 5 3 false) (row 1 5 4 true) disabled_row refl refl
      disabled-fired refl refl refl (omega arith) refl refl (row_shape 1 5 4 true (omega arith))
