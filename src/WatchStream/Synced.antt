-- ===== src/WatchStream/Synced.antt =====
-- storage/watch.py: what the loop of reconnects keeps of the cache and of the revision cursor.
use z4j_scheduler.Prelude.{ℕ, ◌≤◌, List, [], ◌∷◌, Text, arith, Option-cases, inl, inr}
use z4j_scheduler.Cache.State.{Cache, Result, ok, raise}
use z4j_scheduler.Cache.Invariant.{IsWellFormed}
use z4j_scheduler.Cache.Invariant.Merging.{Keeps-apply_watch_update}
use z4j_scheduler.Cache.Invariant.Deleting.{Keeps-apply_tombstone}
use z4j_scheduler.Cache.Invariant.Snapshots.{Keeps-apply_completed_snapshot}
use z4j_scheduler.Cache.Watch.{apply_watch_update}
use z4j_scheduler.Cache.Deletes.{apply_tombstone}
use z4j_scheduler.Cache.Calls.{perform-IsWellFormed}
use z4j_scheduler.Cache.Snapshot.{ScheduleSnapshot, apply_completed_snapshot}
use z4j_scheduler.Quarantine.{Answer, answered, failed}
use z4j_scheduler.WatchV2.{
  Frame, change, scanned, ScheduleChange, OrderedWatchApplier, apply, apply_change, apply_scanned,
  apply_upsert, apply_deletion, advance,
}
use z4j_scheduler.WatchStream.Sync.{
  WatchClient, Ending, went_on, raised, Event, frame_arrived, resynced, called, installed,
  full_sync_current, after_frame, stream_events, stream_current, Cycle, then_stream,
  sync_then_watch, watch_turn, watch_loop,
}

-- The applier's cache after a step.
abbrev KeptBy : OrderedWatchApplier × Result (Unit {0}) → Type 0
KeptBy (a, r) = IsWellFormed a.cache

advance-KeptBy :
    {A : Type 0} (n : ℕ) (a : OrderedWatchApplier) (s : Cache × Result A)
    → IsWellFormed s.0
    → KeptBy (advance n a s)
advance-KeptBy n a (c, ok x) h = h
advance-KeptBy n a (c, raise e) h = h

upsert-KeptBy :
    (f : ScheduleChange) (a : OrderedWatchApplier)
    → IsWellFormed a.cache
    → KeptBy (apply_upsert f a)
unfolding apply_upsert
upsert-KeptBy f a h = elim (Option-cases f.schedule) [
  | inl gone ↦ rw (gone, apply_upsert) h
  | inr (e, at) ↦
      rw (at, apply_upsert)
        (ground (
          arith,
          h,
          advance-KeptBy f.revision a (apply_watch_update e a.cache)
              ((Keeps-apply_watch_update e).at a.cache h),
        ))
]

deletion-KeptBy :
    (f : ScheduleChange) (a : OrderedWatchApplier)
    → IsWellFormed a.cache
    → KeptBy (apply_deletion f a)
unfolding apply_deletion
deletion-KeptBy f a h = elim (Option-cases f.deleted_id) [
  | inl gone ↦ rw (gone, apply_deletion) h
  | inr (k, at) ↦
      rw (at, apply_deletion)
        (ground (
          arith,
          h,
          advance-KeptBy f.revision a (apply_tombstone k f.project_id f.revision a.cache)
              ((Keeps-apply_tombstone k f.project_id f.revision).at a.cache h),
        ))
]

change-KeptBy :
    (f : ScheduleChange) (a : OrderedWatchApplier)
    → IsWellFormed a.cache
    → KeptBy (apply_change f a)
unfolding apply_change
change-KeptBy f a h = ground (arith, h, upsert-KeptBy f a h, deletion-KeptBy f a h)

apply-KeptBy : (f : Frame) (a : OrderedWatchApplier) → IsWellFormed a.cache → KeptBy (apply f a)
unfolding apply apply_scanned
apply-KeptBy (scanned f) a h = ground (arith, h)
apply-KeptBy (change f) a h = ground (arith, h, change-KeptBy f a h)

-- A client whose cache is well formed and whose cursor is no lower than a bound.
pub record IsKept (bound : ℕ) (w : WatchClient) : Type 0 where
  pub well_formed : IsWellFormed w.cache
  pub cursor : bound ≤ w.revision_cursor

abbrev Kept : ℕ → WatchClient × Ending → Type 0
Kept bound (w, e) = IsKept bound w

module _ (digest : ScheduleSnapshot → Text) (bound : ℕ) where
  installed-Kept :
      (s : ScheduleSnapshot) (w : WatchClient) (x : Cache × Result _)
      → IsWellFormed x.0
      → IsKept bound w
      → Kept bound (installed s w x)
  installed-Kept s w (c, raise e) h k = record { well_formed = h; cursor = k.cursor }
  installed-Kept s w (c, ok b) h k = record { well_formed = h; cursor = omega (arith, k.cursor) }

  full_sync-Kept :
      (s : Answer ScheduleSnapshot) (w : WatchClient)
      → IsKept bound w
      → Kept bound (full_sync_current digest s w)
  unfolding full_sync_current
  full_sync-Kept failed w k = k
  full_sync-Kept (answered s) w k =
      installed-Kept s w (apply_completed_snapshot digest s w.cache)
        ((Keeps-apply_completed_snapshot digest s).at w.cache k.well_formed) k

  after_frame-Kept :
      (w : WatchClient) (x : OrderedWatchApplier × Result (Unit {0}))
      (rest : ℕ → WatchClient → WatchClient × Ending)
      → KeptBy x
      → IsKept bound w
      → ((cursor : ℕ) (v : WatchClient) → IsKept bound v → Kept bound (rest cursor v))
      → Kept bound (after_frame digest w x rest)
  after_frame-Kept w (a, raise e) rest h k r = record { well_formed = h; cursor = k.cursor }
  after_frame-Kept w (a, ok u) rest h k r =
      r a.cursor _ (record { well_formed = h; cursor = omega (arith, k.cursor) })

  events-Kept :
      (events : List Event) (cursor : ℕ) (w : WatchClient)
      → IsKept bound w
      → Kept bound (stream_events digest events cursor w)
  unfolding stream_events
  events-Kept [] cursor w k = k
  events-Kept (resynced s ∷ events) cursor w k = events-Kept events cursor _ (full_sync-Kept s w k)
  events-Kept (called x ∷ events) cursor w k = events-Kept events cursor _ (record {
    well_formed = perform-IsWellFormed digest x w.cache k.well_formed;
    cursor = k.cursor;
  })
  events-Kept (frame_arrived f ∷ events) cursor w k =
      after_frame-Kept _ (apply f _) _ (apply-KeptBy f _ k.well_formed)
        (record { well_formed = k.well_formed; cursor = k.cursor })
        (λ cursor v k. events-Kept events cursor v k)

  then_stream-Kept :
      (c : Cycle digest) (x : WatchClient × Ending)
      → Kept bound x
      → Kept bound (then_stream digest c x)
  unfolding stream_current
  then_stream-Kept c (w, raised) k = k
  then_stream-Kept c (w, went_on) k =
      events-Kept c.events w.revision_cursor _
        (record { well_formed = k.well_formed; cursor = k.cursor })

  turn-Kept :
      (reset_after floor : ℕ) (c : Cycle digest) (w : WatchClient)
      → IsKept bound w
      → IsKept bound (watch_turn digest reset_after floor c w)
  unfolding watch_turn sync_then_watch
  turn-Kept reset_after floor c w k =
      let x = then_stream-Kept c _ (full_sync-Kept c.snapshot w k) in
      record { well_formed = x.well_formed; cursor = x.cursor }

  loop-Kept :
      (reset_after floor : ℕ) (cycles : List (Cycle digest)) (w : WatchClient)
      → IsKept bound w
      → IsKept bound (watch_loop digest reset_after floor cycles w)
  unfolding watch_loop
  loop-Kept reset_after floor [] w k = k
  loop-Kept reset_after floor (c ∷ cycles) w k =
      loop-Kept reset_after floor cycles _ (turn-Kept reset_after floor c w k)

-- Any run of the reconnect loop in the current mode, whatever the Brain answers and sends, with any
-- resyncs of the timer and calls of the cache by other tasks between the frames, keeps a
-- well-formed cache well formed and never lowers the revision cursor.
pub watch_loop-IsKept :
    (digest : ScheduleSnapshot → Text) (reset_after floor : ℕ) (cycles : List (Cycle digest))
    (w : WatchClient)
    → IsWellFormed w.cache
    → IsKept w.revision_cursor (watch_loop digest reset_after floor cycles w)
watch_loop-IsKept digest reset_after floor cycles w h =
    loop-Kept digest w.revision_cursor reset_after floor cycles w
      (record { well_formed = h; cursor = omega arith })
