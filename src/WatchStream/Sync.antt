-- ===== src/WatchStream/Sync.antt =====
-- storage/watch.py: the full sync, the stream and the loop of reconnects, under the current protocol and the
-- legacy one. What the Brain answers, the frames that a connection brings and the time are parameters. A
-- resync of the periodic timer, and a call of the cache by another task, is an event between two frames.
-- The stop event is left out: it ends a connection as the end of its frames does.
use z4j_scheduler.Prelude.{ℕ, max, Bool, Option, List, [], ◌∷◌, if◌then◌else◌, map, Text}
use z4j_scheduler.Dict.{contains}
use z4j_scheduler.Entry.{Uuid, ScheduleEntry}
use z4j_scheduler.Cache.State.{Cache, Result, ok, raise}
use z4j_scheduler.Cache.Watch.{apply_watch_updates}
use z4j_scheduler.Cache.Deletes.{remove}
use z4j_scheduler.Cache.Snapshot.{ScheduleSnapshot, apply_completed_snapshot}
use z4j_scheduler.Cache.Calls.{Call, perform}
use z4j_scheduler.Quarantine.{Answer, answered, failed}
use z4j_scheduler.WatchV2.{Frame, OrderedWatchApplier, apply}
use z4j_scheduler.WatchStream.{
  WatchStream, mark_healthy, mark_served, mark_unhealthy, count_attempt,
}

-- The client of one project scope, with the cache that it feeds.
pub record WatchClient : Type 0 where
  pub cache : Cache
  pub project_id : Option Uuid
  pub revision_cursor : ℕ
  pub stream : WatchStream

-- How a coroutine of the client ends.
pub data Ending : Type 0 where
  went_on raised : Ending

-- What happens on a connection: a frame arrives, the timer syncs, or another task calls the cache.
pub data Event : Type 0 where
  frame_arrived : Frame → Event
  resynced : Answer ScheduleSnapshot → Event
  called : Call → Event

abbrev pub installed : ScheduleSnapshot → WatchClient → Cache × Result Bool → WatchClient × Ending
installed s w (c, raise e) = (record w { cache = c }, raised)
installed s w (c, ok b) =
    (record w { cache = c; revision_cursor = max w.revision_cursor s.watermark }, went_on)

module _ (digest : ScheduleSnapshot → Text) where
  -- `_full_sync_current`
  unfoldable pub full_sync_current : Answer ScheduleSnapshot → WatchClient → WatchClient × Ending
  full_sync_current failed w = (w, raised)
  full_sync_current (answered s) w = installed s w (apply_completed_snapshot digest s w.cache)

  -- The applier of a connection is the client's cache, its scope and a cursor of its own.
  abbrev pub applier : ℕ → WatchClient → OrderedWatchApplier
  applier cursor w = record { cache = w.cache; project_id = w.project_id; cursor = cursor }

  abbrev pub after_frame :
      WatchClient
      → OrderedWatchApplier × Result (Unit {0})
      → (ℕ → WatchClient → WatchClient × Ending)
      → WatchClient × Ending
  after_frame w (a, raise e) rest = (record w { cache = a.cache }, raised)
  after_frame w (a, ok u) rest =
      rest a.cursor (record w { cache = a.cache; revision_cursor = max w.revision_cursor a.cursor })

  -- `_stream_current` after it opened, with the cursor of its applier. The failure of a resync is logged.
  unfoldable pub stream_events : List Event → ℕ → WatchClient → WatchClient × Ending
  stream_events [] cursor w = (w, went_on)
  stream_events (resynced s ∷ events) cursor w =
      stream_events events cursor (full_sync_current s w).0
  stream_events (called x ∷ events) cursor w =
      stream_events events cursor (record w { cache = perform digest x w.cache })
  stream_events (frame_arrived f ∷ events) cursor w =
      let v = record w { stream = mark_served w.stream } in
      after_frame v (apply f (applier cursor v)) (λ cursor w. stream_events events cursor w)

  unfoldable pub stream_current : ℕ → List Event → WatchClient → WatchClient × Ending
  stream_current now events w =
      stream_events events w.revision_cursor (record w { stream = mark_healthy now w.stream })

  -- What one turn of the loop meets: the answer to the sync, the time at which the stream opens, its
  -- events, and the time at which it is down.
  pub record Cycle : Type 0 where
    pub snapshot : Answer ScheduleSnapshot
    pub opened : ℕ
    pub events : List Event
    pub down : ℕ

  abbrev pub then_stream : Cycle → WatchClient × Ending → WatchClient × Ending
  then_stream c (w, raised) = (w, raised)
  then_stream c (w, went_on) = stream_current c.opened c.events w

  -- `_sync_then_watch` in the current mode.
  unfoldable pub sync_then_watch : Cycle → WatchClient → WatchClient × Ending
  sync_then_watch c w = then_stream c (full_sync_current c.snapshot w)

  -- A turn of `_watch_loop`: the stream is down whether it raised or ended, and the backoff counts.
  unfoldable pub watch_turn : ℕ → ℕ → Cycle → WatchClient → WatchClient
  watch_turn reset_after floor c w =
      let v = (sync_then_watch c w).0 in
      record v { stream = count_attempt (mark_unhealthy reset_after floor c.down v.stream) }

  unfoldable pub watch_loop : ℕ → ℕ → List Cycle → WatchClient → WatchClient
  watch_loop reset_after floor [] w = w
  watch_loop reset_after floor (c ∷ cycles) w =
      watch_loop reset_after floor cycles (watch_turn reset_after floor c w)

-- [sid for sid in pre_sync_ids if sid not in fresh_ids]
unfoldable pub stale_ids : List Uuid → List Uuid → List Uuid
stale_ids fresh [] = []
stale_ids fresh (k ∷ ids) =
    let rest = stale_ids fresh ids in if contains fresh k then rest else k ∷ rest

unfoldable pub remove_all : List Uuid → Cache → Cache
remove_all [] c = c
remove_all (k ∷ ids) c = remove_all ids (remove k c).0

abbrev id_of : ScheduleEntry → Uuid
id_of e = e.id

abbrev swept : List Uuid → List ScheduleEntry → Cache × Result (Unit {0}) → Cache × Ending
swept ids es (c, raise e) = (c, raised)
swept ids es (c, ok u) = (remove_all (stale_ids (map id_of es) ids) c, went_on)

-- The legacy `_full_sync`, with the ids that were cached before the list was read: only those are swept.
unfoldable pub full_sync : Answer (List ScheduleEntry) → List Uuid → Cache → Cache × Ending
full_sync failed ids c = (c, raised)
full_sync (answered es) ids c = swept ids es (apply_watch_updates es c)
