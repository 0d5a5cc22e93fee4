-- ===== src/Cache/Calls.antt =====
-- storage/cache.py: any sequence of calls of the methods that change the cache.
pub mod Steps
pub mod Order
use z4j_scheduler.Prelude.{ℕ, ◌≡◌, refl, Bool, Option, List, [], ◌∷◌, Text}
use z4j_scheduler.Dict.{get}
use z4j_scheduler.Dict.Distinct.{tally}
use z4j_scheduler.Entry.{Uuid, Instant, ScheduleEntry}
use z4j_scheduler.Cache.State.{Cache, empty_cache}
use z4j_scheduler.Cache.Rows.{count_for_project}
use z4j_scheduler.Cache.Rows.Counts.{in_project, count_for_project-eq-tally}
use z4j_scheduler.Cache.Latches
use z4j_scheduler.Cache.Watch
use z4j_scheduler.Cache.Cursor
use z4j_scheduler.Cache.Cursor.{Transition}
use z4j_scheduler.Cache.Deletes
use z4j_scheduler.Cache.Snapshot
use z4j_scheduler.Cache.Snapshot.{ScheduleSnapshot}
use z4j_scheduler.Cache.Invariant.{IsWellFormed}
use z4j_scheduler.Cache.Invariant.Merging.{
  Keeps-upsert, Keeps-upsert_many, Keeps-apply_watch_update, Keeps-apply_watch_updates,
}
use z4j_scheduler.Cache.Invariant.Latching.{
  quarantine_locally-IsWellFormed, latch_current_stop-IsWellFormed,
  release_current_stop-IsWellFormed, update_fire_state-IsWellFormed,
}
use z4j_scheduler.Cache.Invariant.Advancing.{Keeps-apply_cursor_transition}
use z4j_scheduler.Cache.Invariant.Deleting.{
  Keeps-remove, clear-IsWellFormed, Keeps-apply_tombstone, Keeps-apply_observed_absence,
}
use z4j_scheduler.Cache.Invariant.Snapshots.{Keeps-apply_completed_snapshot}

pub empty-IsWellFormed : (cap : ℕ) → IsWellFormed (empty_cache cap)
unfolding get tally
empty-IsWellFormed cap = record {
  counted = record { distinct = tt; counted = λ p. refl };
  rows = λ k e at. cc;
}

pub data Call : Type 0 where
  upsert apply_watch_update : ScheduleEntry → Call
  upsert_many apply_watch_updates : List ScheduleEntry → Call
  remove : Uuid → Call
  clear : Call
  update_fire_state :
      Uuid
      → Option (Option Instant)
      → Option (Option Instant)
      → Option Bool
      → Option ScheduleEntry
      → Call
  apply_cursor_transition : Uuid → Transition → Call
  quarantine_locally : Uuid → ScheduleEntry → Text → Text → Call
  latch_current_stop : Uuid → Uuid → ℕ → Call
  release_current_stop : Uuid → Uuid → Call
  apply_tombstone apply_observed_absence : Uuid → Uuid → ℕ → Call
  apply_completed_snapshot : ScheduleSnapshot → Call

module _ (digest : ScheduleSnapshot → Text) where
  -- The cache after a call, whatever it returned or raised.
  unfoldable pub perform : Call → Cache → Cache
  perform (upsert e) c = (Watch.upsert e c).0
  perform (upsert_many es) c = (Watch.upsert_many es c).0
  perform (apply_watch_update e) c = (Watch.apply_watch_update e c).0
  perform (apply_watch_updates es) c = (Watch.apply_watch_updates es c).0
  perform (remove k) c = (Deletes.remove k c).0
  perform clear c = Deletes.clear c
  perform (update_fire_state k last next b x) c = (Latches.update_fire_state k last next b x c).0
  perform (apply_cursor_transition k t) c = (Cursor.apply_cursor_transition k t c).0
  perform (quarantine_locally k x code detail) c = (Latches.quarantine_locally k x code detail c).0
  perform (latch_current_stop k token revision) c =
      (Latches.latch_current_stop k token revision c).0
  perform (release_current_stop k token) c = (Latches.release_current_stop k token c).0
  perform (apply_tombstone k p revision) c = (Deletes.apply_tombstone k p revision c).0
  perform (apply_observed_absence k p revision) c =
      (Deletes.apply_observed_absence k p revision c).0
  perform (apply_completed_snapshot s) c = (Snapshot.apply_completed_snapshot digest s c).0

  unfoldable pub run : List Call → Cache → Cache
  unfolding perform
  run [] c = c
  run (call ∷ calls) c = run calls (perform call c)

  pub perform-IsWellFormed :
      (call : Call) (c : Cache) → IsWellFormed c → IsWellFormed (perform call c)
  unfolding perform
  perform-IsWellFormed (upsert e) c h = (Keeps-upsert e).at c h
  perform-IsWellFormed (upsert_many es) c h = (Keeps-upsert_many es).at c h
  perform-IsWellFormed (apply_watch_update e) c h = (Keeps-apply_watch_update e).at c h
  perform-IsWellFormed (apply_watch_updates es) c h = (Keeps-apply_watch_updates es).at c h
  perform-IsWellFormed (remove k) c h = (Keeps-remove k).at c h
  perform-IsWellFormed clear c h = clear-IsWellFormed c
  perform-IsWellFormed (update_fire_state k last next b x) c h =
      update_fire_state-IsWellFormed k last next b x c h
  perform-IsWellFormed (apply_cursor_transition k t) c h =
      (Keeps-apply_cursor_transition k t).at c h
  perform-IsWellFormed (quarantine_locally k x code detail) c h =
      quarantine_locally-IsWellFormed k x code detail c h
  perform-IsWellFormed (latch_current_stop k token revision) c h =
      latch_current_stop-IsWellFormed k token revision c h
  perform-IsWellFormed (release_current_stop k token) c h =
      release_current_stop-IsWellFormed k token c h
  perform-IsWellFormed (apply_tombstone k p revision) c h =
      (Keeps-apply_tombstone k p revision).at c h
  perform-IsWellFormed (apply_observed_absence k p revision) c h =
      (Keeps-apply_observed_absence k p revision).at c h
  perform-IsWellFormed (apply_completed_snapshot s) c h =
      (Keeps-apply_completed_snapshot digest s).at c h

  -- Any sequence of calls of the methods that change the cache, each of which may raise, takes a
  -- well-formed cache to a well-formed one: the project counts stay exact, every row stands under
  -- its own id and has a valid shape, and each row of the current protocol agrees with the revision
  -- and the project recorded for it and, in all but its times and whether it is enabled, with the
  -- payload recorded for it.
  pub run-IsWellFormed :
      (calls : List Call) (c : Cache) → IsWellFormed c → IsWellFormed (run calls c)
  unfolding run
  run-IsWellFormed [] c h = h
  run-IsWellFormed (call ∷ calls) c h =
      run-IsWellFormed calls (perform call c) (perform-IsWellFormed call c h)

  -- After any sequence of calls on a new cache, the number of rows that the cache reports for a
  -- project, which it never recounts, is the number of its rows of that project.
  pub run-counts :
      (calls : List Call) (cap : ℕ) (p : Uuid)
      → count_for_project (run calls (empty_cache cap)) p
        ≡ tally (in_project p) (run calls (empty_cache cap)).entries
  run-counts calls cap p =
      count_for_project-eq-tally _
        (run-IsWellFormed calls (empty_cache cap) (empty-IsWellFormed cap)).counted p
