-- ===== src/WatchV2.antt =====
-- storage/_watch_v2.py: `OrderedWatchApplier`, which applies the frames of the revision-ordered Watch
-- stream to the cache. The frames are those of storage/_models.py.
pub mod Outcome
pub mod Tests
use z4j_scheduler.Prelude.{
  ℕ, Bool, true, false, not, Option, none, some, ◌==◌, ◌||◌, ◌&&◌, leb, ltb, if◌then◌else◌, is_some,
  is_none, List, [], ◌∷◌,
}
use z4j_scheduler.Entry.{Uuid, ScheduleEntry}
use z4j_scheduler.Cache.State.{
  Cache, Error, Result, Method, ok, raise, watch_not_increasing, checkpoint_exceeds_server,
  event_escaped, malformed_upsert, upsert_mismatch, malformed_tombstone,
}
use z4j_scheduler.Cache.Watch.{apply_watch_update}
use z4j_scheduler.Cache.Deletes.{apply_tombstone}

pub data ScheduleChangeKind : Type 0 where
  upsert tombstone : ScheduleChangeKind

pub record ScheduleChange : Type 0 where
  pub kind : ScheduleChangeKind
  pub revision : ℕ
  pub project_id : Uuid
  pub schedule : Option ScheduleEntry
  pub deleted_id : Option Uuid

pub record ScannedThrough : Type 0 where
  pub revision : ℕ
  pub server_revision : ℕ

-- `ScheduleChange | ScannedThrough`
pub data Frame : Type 0 where
  change : ScheduleChange → Frame
  scanned : ScannedThrough → Frame

-- `frame.revision`
abbrev pub revision : Frame → ℕ
revision (change f) = f.revision
revision (scanned f) = f.revision

pub record OrderedWatchApplier : Type 0 where
  pub cache : Cache
  pub project_id : Option Uuid
  pub cursor : ℕ

-- `await` of a method of the cache, and then the move of the cursor.
abbrev pub advance :
    {A : Type 0}
    → ℕ
    → OrderedWatchApplier
    → Cache × Result A
    → OrderedWatchApplier × Result (Unit {0})
advance revision a (c, r) = elim r [
  | ok _ ↦ (record a { cache = c; cursor = revision }, ok tt)
  | raise e ↦ (record a { cache = c }, raise e)
]

abbrev pub out_of_scope : Option Uuid → Uuid → Bool
out_of_scope none p = false
out_of_scope (some q) p = not (p == q)

unfoldable pub apply_scanned :
    ScannedThrough → OrderedWatchApplier → OrderedWatchApplier × Result (Unit {0})
apply_scanned f a =
    if f.server_revision == 0 || ltb f.server_revision f.revision
    then (a, raise checkpoint_exceeds_server)
    else (record a { cursor = f.revision }, ok tt)

unfoldable pub apply_upsert :
    ScheduleChange → OrderedWatchApplier → OrderedWatchApplier × Result (Unit {0})
apply_upsert f a = elim f.schedule [
  | none ↦ (a, raise malformed_upsert)
  | some e ↦
      if is_some f.deleted_id
      then (a, raise malformed_upsert)
      else if not (e.project_id == f.project_id) || not (e.schedule_revision == f.revision)
      then (a, raise upsert_mismatch)
      else advance f.revision a (apply_watch_update e a.cache)
]

unfoldable pub apply_deletion :
    ScheduleChange → OrderedWatchApplier → OrderedWatchApplier × Result (Unit {0})
apply_deletion f a = elim f.deleted_id [
  | none ↦ (a, raise malformed_tombstone)
  | some k ↦
      if is_some f.schedule
      then (a, raise malformed_tombstone)
      else advance f.revision a (apply_tombstone k f.project_id f.revision a.cache)
]

unfoldable pub apply_change :
    ScheduleChange → OrderedWatchApplier → OrderedWatchApplier × Result (Unit {0})
apply_change f a =
    if out_of_scope a.project_id f.project_id
    then (a, raise event_escaped)
    else elim f.kind [ upsert ↦ apply_upsert f a | tombstone ↦ apply_deletion f a ]

unfoldable pub apply : Frame → OrderedWatchApplier → OrderedWatchApplier × Result (Unit {0})
apply frame a =
    if leb (revision frame) a.cursor
    then (a, raise watch_not_increasing)
    else elim frame [ scanned f ↦ apply_scanned f a | change f ↦ apply_change f a ]
