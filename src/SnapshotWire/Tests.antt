-- ===== src/SnapshotWire/Tests.antt =====
-- storage/_snapshot_wire.py: a stream of four frames.
use z4j_scheduler.Prelude.{
  ℕ, ◌≡◌, ◌≢◌, refl, true, none, some, Option, List, [], ◌∷◌, Text, text_eq,
}
use z4j_scheduler.Dict.{contains, add}
use z4j_scheduler.Entry.{Uuid, ScheduleEntry}
use z4j_scheduler.Cache.State.{snapshot_escaped, snapshot_duplicate}
use z4j_scheduler.Cache.Snapshot.{ScheduleSnapshot, frame_fault}
use z4j_scheduler.Cache.Fixtures.{row, checksum}
use z4j_scheduler.SnapshotWire.{
  SnapshotFrame, header, pass, assemble, accept_all, accept, accept_header, accept_row,
  accept_entry, accept_complete, accept_candidate, same_snapshot, uuid, scope, finish, ◌>>=◌,
}
use z4j_scheduler.SnapshotWire.Assembled.{assemble-checks}

-- Ids and rows arrive as numbers here.
abbrev parse_uuid : Text → Option Uuid
parse_uuid [] = none
parse_uuid (c ∷ s) = some c

abbrev read_row : ℕ → Option ScheduleEntry
read_row n = some (row n 5 3 true)

abbrev frames : List (SnapshotFrame ℕ)
frames =
    header (record { format_version = 1; snapshot_id = 9 ∷ []; project_id = 5 ∷ [] })
    ∷ SnapshotFrame.row (record { snapshot_id = 9 ∷ []; schedule = 1 })
    ∷ SnapshotFrame.row (record { snapshot_id = 9 ∷ []; schedule = 2 })
    ∷ SnapshotFrame.complete (record {
      format_version = 1;
      snapshot_id = 9 ∷ [];
      project_id = 5 ∷ [];
      watermark = 4;
      row_count = 2;
      digest = 4 ∷ [];
    })
    ∷ []

abbrev snapshot : ScheduleSnapshot
snapshot = record {
  snapshot_id = 9;
  project_id = some 5;
  watermark = 4;
  rows = row 1 5 3 true ∷ row 2 5 3 true ∷ [];
  digest = 4 ∷ [];
}

assembled : assemble parse_uuid read_row checksum (some 5) frames ≡ pass snapshot
unfolding assemble accept_all accept accept_header accept_row accept_entry accept_complete
    accept_candidate same_snapshot uuid scope finish ◌>>=◌ text_eq contains add
assembled = refl

assemble-checks_example :
    (◌≡◌ {A = Option Uuid} (some 5) (some 5))
    × (text_eq (4 ∷ []) (4 ∷ []) ≡ true)
    × (frame_fault snapshot [] snapshot.rows ≢ some snapshot_escaped)
    × (frame_fault snapshot [] snapshot.rows ≢ some snapshot_duplicate)
assemble-checks_example =
    assemble-checks parse_uuid read_row checksum (some 5) frames snapshot assembled
