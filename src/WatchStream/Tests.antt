-- ===== src/WatchStream/Tests.antt =====
-- storage/watch.py: a client that syncs, reads two frames, of which the second is stale, and reconnects to a
-- Brain that does not answer.
use z4j_scheduler.Prelude.{none, List, [], ◌∷◌, Text}
use z4j_scheduler.Cache.Snapshot.{ScheduleSnapshot}
use z4j_scheduler.Cache.Fixtures.{two_rows, two_rows-IsWellFormed}
use z4j_scheduler.Quarantine.{answered, failed}
use z4j_scheduler.WatchV2.{scanned}
use z4j_scheduler.WatchStream.{new_stream}
use z4j_scheduler.WatchStream.Sync.{WatchClient, Cycle, frame_arrived, resynced, watch_loop}
use z4j_scheduler.WatchStream.Synced.{IsKept, watch_loop-IsKept}

abbrev no_digest : ScheduleSnapshot → Text
no_digest s = []

abbrev client : WatchClient
client = record { cache = two_rows; project_id = none; revision_cursor = 4; stream = new_stream }

abbrev cycles : List (Cycle no_digest)
cycles =
    record {
      snapshot =
          answered
            (record { snapshot_id = 8; project_id = none; watermark = 6; rows = []; digest = [] });
      opened = 100;
      events =
          frame_arrived (scanned (record { revision = 7; server_revision = 9 }))
          ∷ resynced failed
          ∷ frame_arrived (scanned (record { revision = 7; server_revision = 9 }))
          ∷ [];
      down = 900;
    }
    ∷ record { snapshot = failed; opened = 2000; events = []; down = 2000 }
    ∷ []

watch_loop-IsKept_example : IsKept 4 (watch_loop no_digest 900000 30000 cycles client)
watch_loop-IsKept_example =
    watch_loop-IsKept no_digest 900000 30000 cycles client two_rows-IsWellFormed
