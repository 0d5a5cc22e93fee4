-- ===== src/Cache/Snapshot.antt =====
-- storage/cache.py: the reconciliation of one complete snapshot. The digest of a snapshot is a
-- parameter: it is SHA-256 over canonical JSON.
pub mod Fitting
pub mod Atomic
pub mod Dropping
pub mod Reconcile
pub mod Halfway
pub mod Tests
use z4j_scheduler.Prelude.{
  ℕ, Bool, true, false, not, ◌&&◌, ◌||◌, Option, none, some, List, [], ◌∷◌, ltb, leb, ◌==◌,
  if◌then◌else◌, is_none, max, Text, text_eq,
}
use z4j_scheduler.Dict.{Dict, Set, get, put, get_or, values, contains, add, discard}
use z4j_scheduler.Entry.{Uuid, ScheduleEntry, schedule_brain_payload}
use z4j_scheduler.Cache.State.{
  Cache, Error, Method, ok, raise, malformed_shape, snapshot_digest_mismatch, snapshot_legacy_row,
  snapshot_escaped, snapshot_duplicate, snapshot_exceeds_watermark, snapshot_conflict, set_changed,
  ◌>>◌,
}
use z4j_scheduler.Cache.Watch.{
  well_shaped, known_revision, was_sent, for_each, apply_watch_update_locked,
}
use z4j_scheduler.Cache.Deletes.{
  remove_row, drop_evidence, forget_evidence, post_watermark_tombstone_count_locked,
  pause_for_tombstone_pressure_locked, report_tombstone_pressure,
}

-- storage/_models.py: `project_id` is `None` for the scope of all projects.
pub record ScheduleSnapshot : Type 0 where
  pub snapshot_id : Uuid
  pub project_id : Option Uuid
  pub watermark : ℕ
  pub rows : List ScheduleEntry
  pub digest : Text

-- `snapshot.project_id is None or p == snapshot.project_id`
abbrev pub in_scope : ScheduleSnapshot → Uuid → Bool
in_scope s p = elim s.project_id [ none ↦ true | some q ↦ p == q ]

-- The first fault of a frame, in the order of the loop over the rows.
unfoldable pub frame_fault : ScheduleSnapshot → Set → List ScheduleEntry → Option Error
frame_fault s seen [] = none
frame_fault s seen (row ∷ rows) =
    let rest = frame_fault s (add seen row.id) rows in
    if not (well_shaped row)
    then some malformed_shape
    else if is_none row.control_token
    then some snapshot_legacy_row
    else if not (in_scope s row.project_id)
    then some snapshot_escaped
    else if contains seen row.id
    then some snapshot_duplicate
    else if ltb s.watermark row.schedule_revision
    then some snapshot_exceeds_watermark
    else rest

-- `seen` after the loop.
unfoldable pub row_ids : Set → List ScheduleEntry → Set
row_ids seen [] = seen
row_ids seen (row ∷ rows) = row_ids (add seen row.id) rows

unfoldable pub current_watermark : ScheduleSnapshot → Cache → ℕ
current_watermark s c = elim s.project_id [
  | none ↦ c.global_watermark
  | some p ↦ max c.global_watermark (get_or c.project_watermarks p 0)
]

-- A row that reuses its known revision with another payload.
abbrev pub conflicts : Cache → ScheduleEntry → Bool
conflicts c row =
    row.schedule_revision == known_revision c row.id
    && not (was_sent (get c.brain_payloads row.id) (schedule_brain_payload row))

unfoldable pub any_conflict : Cache → List ScheduleEntry → Bool
any_conflict c [] = false
any_conflict c (row ∷ rows) = conflicts c row || any_conflict c rows

-- The loop over the cached rows: what the snapshot covers and does not hold is dropped.
unfoldable pub drop_missing : ScheduleSnapshot → Set → Dict ScheduleEntry → Method Unit
drop_missing s seen [] c = (c, ok tt)
drop_missing s seen ((k, e) ∷ items) c =
    let rest = drop_missing s seen items in
    if not (in_scope s e.project_id) || contains seen k || ltb s.watermark (known_revision c k)
    then rest c
    else (do remove_row k; forget_evidence k; rest) c

abbrev pub in_scope_of : ScheduleSnapshot → Option Uuid → Bool
in_scope_of s known = elim s.project_id [
  | none ↦ true
  | some p ↦ elim known [ none ↦ false | some q ↦ q == p ]
]

unfoldable pub set_watermark : ScheduleSnapshot → Cache → Cache
set_watermark s c = elim s.project_id [
  | none ↦ record c { global_watermark = s.watermark }
  | some p ↦ record c { project_watermarks = put c.project_watermarks p s.watermark }
]

-- Absences that the watermark covers are forgotten.
unfoldable pub compact : ScheduleSnapshot → Dict ℕ → Cache → Cache
compact s [] c = c
compact s ((k, revision) ∷ items) c = compact s items (
    if in_scope_of s (get c.id_projects k) && is_none (get c.entries k) && leb revision s.watermark
    then drop_evidence k c
    else c)

-- set(values), in some order.
unfoldable pub distinct_values : List Uuid → Set
distinct_values [] = []
distinct_values (p ∷ ps) = add (distinct_values ps) p

-- The loop over all projects after a global snapshot; the newly paused ones are returned.
unfoldable pub repause : Set → List Uuid → Cache → Cache × List (Uuid × ℕ)
repause before [] c = (c, [])
repause before (p ∷ ps) c =
    let count = post_watermark_tombstone_count_locked c p in
    if ltb count c.max_post_watermark_tombstones
    then repause before ps c
    else (let (c', paused) =
          repause before ps
            (record c { snapshot_required_projects = add c.snapshot_required_projects p }) in
        (c', if contains before p then paused else (p, count) ∷ paused))

unfoldable pub settle_pauses : ScheduleSnapshot → Cache → Cache × List (Uuid × ℕ)
settle_pauses s c = elim s.project_id [
  | none ↦
      repause c.snapshot_required_projects (distinct_values (values c.id_projects))
        (record c { snapshot_required_projects = [] })
  | some p ↦
      if ltb (post_watermark_tombstone_count_locked c p) c.max_post_watermark_tombstones
      then (record c { snapshot_required_projects = discard c.snapshot_required_projects p }, [])
      else (let (c', paused) = pause_for_tombstone_pressure_locked p c in
          (c', elim paused [ none ↦ [] | some count ↦ (p, count) ∷ [] ]))
]

-- From the new watermark to the end.
unfoldable pub finish_snapshot : ScheduleSnapshot → Method Bool
finish_snapshot s c =
    let c₁ = set_watermark s c in
    let c₂ = compact s c₁.id_revisions c₁ in
    let (c₃, paused) = settle_pauses s c₂ in
    (report_tombstone_pressure paused (set_changed c₃), ok true)

-- What the lock holds together.
unfoldable pub install_snapshot : ScheduleSnapshot → Method Bool
install_snapshot s = do
  for_each apply_watch_update_locked s.rows
  λ c. (drop_missing s (row_ids [] s.rows) c.entries >> finish_snapshot s) c

module _ (snapshot_digest : ScheduleSnapshot → Text) where
  unfoldable pub apply_completed_snapshot : ScheduleSnapshot → Method Bool
  apply_completed_snapshot s c =
      if not (text_eq s.digest (snapshot_digest s))
      then (c, raise snapshot_digest_mismatch)
      else elim (frame_fault s [] s.rows) [
        | some e ↦ (c, raise e)
        | none ↦
            if ltb s.watermark (current_watermark s c)
            then (c, ok false)
            else if any_conflict c s.rows
            then (c, raise snapshot_conflict)
            else install_snapshot s c
      ]
