-- ===== src/Cache/Deletes.antt =====
-- storage/cache.py: removal of rows, ordered deletes and observed absences, and the pause of a
-- project whose deletes since its last snapshot reach the cap.
use z4j_scheduler.Prelude.{
  ℕ, ◌+◌, Bool, true, false, not, ◌&&◌, ◌||◌, Option, none, some, List, [], ◌∷◌, ltb, leb, ◌==◌,
  if◌then◌else◌, is_some, is_none, non_empty,
}
use z4j_scheduler.Dict.{Dict, get, put, pop, contains, add}
use z4j_scheduler.Entry.{Uuid}
use z4j_scheduler.Cache.State.{
  Cache, Method, ok, raise, tombstone_not_positive, tombstone_moved, tombstone_conflict,
  absence_not_positive, absence_moved, absence_conflict, set_changed, ◌>>=◌, ◌>>◌,
}
use z4j_scheduler.Cache.Rows.{remove_entry_locked}
use z4j_scheduler.Cache.Watch.{known_revision, watermark}

-- The row's latches and its payload go with it.
unfoldable pub forget_local : Uuid → Method Unit
forget_local k c = (
  record c {
    local_quarantines = pop c.local_quarantines k;
    current_stop_latches = pop c.current_stop_latches k;
    brain_payloads = pop c.brain_payloads k;
  },
  ok tt,
)

-- The row, its latches and its payload.
unfoldable pub remove_row : Uuid → Method Unit
remove_row k = remove_entry_locked k >>= λ _. forget_local k

-- The revision and the project of an id go.
abbrev pub drop_evidence : Uuid → Cache → Cache
drop_evidence k c = record c {
  id_revisions = pop c.id_revisions k;
  id_projects = pop c.id_projects k;
}

unfoldable pub forget_evidence : Uuid → Method Unit
forget_evidence k c = (drop_evidence k c, ok tt)

unfoldable pub record_absence : Uuid → Uuid → ℕ → Method Unit
record_absence k p revision c = (
  record c { id_revisions = put c.id_revisions k revision; id_projects = put c.id_projects k p },
  ok tt,
)

unfoldable pub remove : Uuid → Method Bool
remove k = do
  row ← remove_entry_locked k
  forget_local k
  forget_evidence k
  λ c. (if is_some row then set_changed c else c, ok (is_some row))

unfoldable pub clear : Cache → Cache
clear c = record c {
  entries = [];
  project_counts = [];
  local_quarantines = [];
  current_stop_latches = [];
  brain_payloads = [];
  id_revisions = [];
  id_projects = [];
  project_watermarks = [];
  global_watermark = 0;
  snapshot_required_projects = [];
  changed = non_empty c.entries || c.changed;
}

-- `known_project is not None and known_project != project_id`
abbrev pub project_differs : Option Uuid → Uuid → Bool
project_differs none p = false
project_differs (some q) p = not (q == p)

-- A delete of the project that no stable snapshot covers: the test of the `sum`.
abbrev pub is_tombstone : Cache → Uuid → Uuid → ℕ → Bool
is_tombstone c p k revision =
    (elim (get c.id_projects k) [ none ↦ false | some q ↦ q == p ])
    && is_none (get c.entries k)
    && ltb (watermark c p) revision

unfoldable pub tombstones_in : Cache → Uuid → Dict ℕ → ℕ
tombstones_in c p [] = 0
tombstones_in c p ((k, revision) ∷ d) =
    (if is_tombstone c p k revision then 1 else 0) + tombstones_in c p d

unfoldable pub post_watermark_tombstone_count_locked : Cache → Uuid → ℕ
post_watermark_tombstone_count_locked c p = tombstones_in c p c.id_revisions

unfoldable pub pause_for_tombstone_pressure_locked : Uuid → Cache → Cache × Option ℕ
pause_for_tombstone_pressure_locked p c =
    let count = post_watermark_tombstone_count_locked c p in
    if ltb count c.max_post_watermark_tombstones
    then (c, none)
    else if contains c.snapshot_required_projects p
    then (c, none)
    else (record c { snapshot_required_projects = add c.snapshot_required_projects p }, some count)

-- Each newly paused project is logged, and the hook is called for it. What the hook raises is
-- caught.
unfoldable pub report_tombstone_pressure : List (Uuid × ℕ) → Cache → Cache
report_tombstone_pressure [] c = c
report_tombstone_pressure (call ∷ calls) c = report_tombstone_pressure calls (
    if c.on_snapshot_required
    then record c { snapshot_requests = call ∷ c.snapshot_requests }
    else c)

-- The last lines of `apply_tombstone`, from the pause on.
unfoldable pub pause_and_report : Uuid → Method Bool
pause_and_report p c =
    let (c', paused) = pause_for_tombstone_pressure_locked p c in
    elim paused [
      | none ↦ (set_changed c', ok true)
      | some count ↦ (report_tombstone_pressure ((p, count) ∷ []) (set_changed c'), ok true)
    ]

unfoldable pub apply_tombstone : Uuid → Uuid → ℕ → Method Bool
apply_tombstone k p revision c =
    let known = known_revision c k in
    if revision == 0
    then (c, raise tombstone_not_positive)
    else if project_differs (get c.id_projects k) p
    then (c, raise tombstone_moved)
    else if ltb revision known || (leb revision (watermark c p) && ltb known revision)
    then (c, ok false)
    else if revision == known
    then (if is_some (get c.entries k) then (c, raise tombstone_conflict) else (c, ok false))
    else (do remove_row k; record_absence k p revision; pause_and_report p) c

unfoldable pub apply_observed_absence : Uuid → Uuid → ℕ → Method Bool
apply_observed_absence k p observed c =
    let known = known_revision c k in
    if observed == 0
    then (c, raise absence_not_positive)
    else if project_differs (get c.id_projects k) p
    then (c, raise absence_moved)
    else if ltb observed known
    then (c, ok false)
    else if observed == known
    then (if is_some (get c.entries k) then (c, raise absence_conflict) else (c, ok false))
    else (do remove_row k; record_absence k p observed; λ c'. (set_changed c', ok true)) c
