-- ===== src/Cache/Snapshot/Halfway.antt =====
-- storage/cache.py: a snapshot with a row that moves a cached row to another project.
use z4j_scheduler.Prelude.{
  subst, ◌≡◌, refl, ap, ◌∙◌, true, false, none, some, not, ◌&&◌, List, [], ◌∷◌, arith, Text,
  text_eq, ltb, ◌==◌,
}
use z4j_scheduler.Dict.{get, add, contains}
use z4j_scheduler.Dict.Laws.{contains-add}
use z4j_scheduler.Entry.{schedule_brain_payload, BrainPayload, Uuid, ScheduleEntry}
use z4j_scheduler.Cache.State.{
  Error, >>=-of_raise, Cache, ok, raise, project_moved, >>=-of_ok, ◌>>◌,
}
use z4j_scheduler.Cache.Invariant.{IsWellFormed}
use z4j_scheduler.Cache.Invariant.Merging.{merge-eq}
use z4j_scheduler.Cache.Watch.{
  merge_fire_state, install_row, remember, well_shaped, watch_verdict, accept, reject, has_moved,
  for_each, apply_watch_update_locked,
}
use z4j_scheduler.Cache.Watch.Order.{update_rejected, update_accepted, install-entry}
use z4j_scheduler.Cache.Watch.Install.{install-eq, clamped}
use z4j_scheduler.Cache.Latches.{apply_local_quarantine_locked, apply_current_stop_locked}
use z4j_scheduler.Cache.Watch.Clamp.{quarantine_holds, stop_holds}
use z4j_scheduler.Cache.Snapshot.{
  ScheduleSnapshot, frame_fault, any_conflict, current_watermark, install_snapshot,
  apply_completed_snapshot, drop_missing, row_ids, finish_snapshot,
}
use z4j_scheduler.Cache.Snapshot.Fitting.{update_elsewhere}
use z4j_scheduler.Cache.Snapshot.Atomic.{frame_here}

moved_rejected :
    (c : Cache) (e : ScheduleEntry)
    → well_shaped e ≡ true
    → has_moved (get c.entries e.id) e ≡ true
    → watch_verdict c e ≡ reject project_moved
unfolding watch_verdict
moved_rejected c e shape moved = ground arith

module _ (c : Cache) (a b : ScheduleEntry) (rest : List ScheduleEntry) (h : IsWellFormed c) where
  abbrev first : Cache
  first = (apply_watch_update_locked a c).0

  halfway_loop :
      apply_watch_update_locked a c ≡ (first, ok tt)
      → watch_verdict first b ≡ reject project_moved
      → for_each apply_watch_update_locked (a ∷ b ∷ rest) c ≡ (first, raise project_moved)
  unfolding for_each
  halfway_loop done refused =
      >>=-of_ok (apply_watch_update_locked a) (λ _. for_each apply_watch_update_locked (b ∷ rest))
        done
      ∙ >>=-of_raise (apply_watch_update_locked b) (λ _. for_each apply_watch_update_locked rest)
          (update_rejected first b project_moved refused)

distinct_ids : (j k : Uuid) → contains (add [] j) k ≡ false → (j == k) ≡ false
unfolding contains
distinct_ids j k h = ground (arith, contains-add [] j k)

accepted_ok :
    (c : Cache) (e : ScheduleEntry)
    → IsWellFormed c
    → watch_verdict c e ≡ accept
    → apply_watch_update_locked e c ≡ ((apply_watch_update_locked e c).0, ok tt)
accepted_ok c e h taken = rw (
  update_accepted c e taken,
  install-eq (schedule_brain_payload e) (merge_fire_state c e) c h.counted,
)

completed-eq :
    (digest : ScheduleSnapshot → Text) (s : ScheduleSnapshot) (c : Cache)
    → text_eq s.digest (digest s) ≡ true
    → frame_fault s [] s.rows ≡ none
    → ltb s.watermark (current_watermark s c) ≡ false
    → any_conflict c s.rows ≡ false
    → apply_completed_snapshot digest s c ≡ install_snapshot s c
unfolding apply_completed_snapshot
completed-eq digest s c same good current agreed = ground arith

install_raises :
    (s : ScheduleSnapshot) (c c' : Cache) (x : Error)
    → for_each apply_watch_update_locked s.rows c ≡ (c', raise x)
    → install_snapshot s c ≡ (c', raise x)
unfolding install_snapshot
install_raises s c c' x stopped =
    >>=-of_raise (for_each apply_watch_update_locked s.rows)
      (λ _ y. (drop_missing s (row_ids [] s.rows) y.entries >> finish_snapshot s) y) stopped

-- The row with what a quarantine or a stop that holds makes of it.
abbrev pub held_back : Cache → ScheduleEntry → ScheduleEntry
held_back c a = record a {
  is_enabled = a.is_enabled && not (quarantine_holds c a) && not (stop_holds c a);
}

clamped-held_back :
    (p : BrainPayload) (a : ScheduleEntry) (c : Cache) → clamped p a c ≡ held_back c a
unfolding remember apply_local_quarantine_locked apply_current_stop_locked
clamped-held_back p a c = ground arith

first_stored :
    (c : Cache) (a : ScheduleEntry)
    → IsWellFormed c
    → watch_verdict c a ≡ accept
    → get (apply_watch_update_locked a c).0.entries a.id ≡ some (held_back c (merge_fire_state c a))
first_stored c a h taken =
    let m = merge_fire_state c a in
    let p = schedule_brain_payload a in
    let same : m.id ≡ a.id = rw merge-eq refl in
    rw (update_accepted c a taken) (
      subst (λ k. get (install_row p m c).0.entries k ≡ some (clamped p m c)) same
        (install-entry p m c h)
      ∙ ap some (clamped-held_back p m c))

-- A snapshot on a well-formed cache, with the right digest, valid frames, a watermark that is not
-- behind and no reused revision, whose first row is accepted and whose second row moves a cached
-- row of the current protocol to another project, raises, and the first row is stored, with the
-- fire times that the merge with the cached row gives it and disabled if a quarantine or a stop
-- holds it.
pub snapshot_halfway :
    (digest : ScheduleSnapshot → Text) (s : ScheduleSnapshot) (c : Cache) (a b : ScheduleEntry)
    (rest : List ScheduleEntry)
    → IsWellFormed c
    → s.rows ≡ a ∷ b ∷ rest
    → text_eq s.digest (digest s) ≡ true
    → frame_fault s [] s.rows ≡ none
    → ltb s.watermark (current_watermark s c) ≡ false
    → any_conflict c s.rows ≡ false
    → watch_verdict c a ≡ accept
    → has_moved (get c.entries b.id) b ≡ true
    → ((apply_completed_snapshot digest s c).1 ≡ raise project_moved)
      × (get (apply_completed_snapshot digest s c).0.entries a.id
          ≡ some (held_back c (merge_fire_state c a)))
snapshot_halfway digest s c a b rest h rows same good current agreed taken moved =
    let frames : frame_fault s [] (a ∷ b ∷ rest) ≡ none =
      subst (λ es. frame_fault s [] es ≡ none) rows good in
    let head = frame_here s [] a (b ∷ rest) frames in
    let next = frame_here s (add [] a.id) b rest head.3 in
    let stored = first_stored c a h taken in
    let c' = (apply_watch_update_locked a c).0 in
    let still = update_elsewhere c a b.id accept taken h (distinct_ids a.id b.id next.2) in
    let there : has_moved (get c'.entries b.id) b ≡ true = rw (still.row) moved in
    let loop =
      halfway_loop c a b rest h (accepted_ok c a h taken) (moved_rejected c' b next.0 there) in
    let all : for_each apply_watch_update_locked s.rows c ≡ (c', raise project_moved) =
      rw rows loop in
    rw (completed-eq digest s c same good current agreed, install_raises s c c' project_moved all)
      (refl, stored)
