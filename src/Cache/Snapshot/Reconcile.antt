-- ===== src/Cache/Snapshot/Reconcile.antt =====
-- storage/cache.py: the rows that are left after a snapshot.
use z4j_scheduler.Prelude.{
  Text, ◌⊎◌, ◌<◌, ◌∙◌, sym, ap, subst, ◌≡◌, refl, Bool, true, false, some, [], arith, inl, inr,
}
use z4j_scheduler.Dict.{Dict, get, contains}
use z4j_scheduler.Entry.{Uuid, ScheduleEntry}
use z4j_scheduler.Cache.State.{Cache, Result, ok, raise, set_changed, ◌>>◌}
use z4j_scheduler.Cache.Invariant.{IsWellFormed}
use z4j_scheduler.Cache.Invariant.Deleting.{report-Agrees}
use z4j_scheduler.Cache.Invariant.Monad.{Keeps-for_each}
use z4j_scheduler.Cache.Invariant.Merging.{Keeps-apply_watch_update_locked}
use z4j_scheduler.Cache.Invariant.Keep.{known-Agrees, Agrees}
use z4j_scheduler.Cache.Snapshot.Atomic.{drop_missing_ok, bind_ok}
use z4j_scheduler.Cache.Invariant.Snapshots.{
  snapshot_outcome, set_watermark-Agrees, settle_pauses-Agrees,
}
use z4j_scheduler.Cache.Watch.{known_revision, apply_watch_update_locked, for_each}
use z4j_scheduler.Cache.Snapshot.{
  ScheduleSnapshot, in_scope, drop_missing, row_ids, finish_snapshot, install_snapshot,
  apply_completed_snapshot, compact, set_watermark, settle_pauses,
}
use z4j_scheduler.Cache.Snapshot.Dropping.{
  dropped, drop_missing_lem, drop_missing-known, compact-entries, compact-known,
}

module _ (s : ScheduleSnapshot) (c : Cache) where
  abbrev compacted : Cache
  compacted = compact s (set_watermark s c).id_revisions (set_watermark s c)

  finish-compacted : Agrees compacted (finish_snapshot s c).0
  unfolding finish_snapshot
  finish-compacted =
      let r = settle_pauses s compacted in
      ground (arith, settle_pauses-Agrees s compacted, report-Agrees r.1 (set_changed r.0))

  finish-entries : (finish_snapshot s c).0.entries ≡ c.entries
  finish-entries =
      finish-compacted.entries
      ∙ compact-entries s (set_watermark s c).id_revisions (set_watermark s c)
      ∙ (set_watermark-Agrees s c).entries

  finish-known :
      (k : Uuid) (x : ScheduleEntry)
      → get c.entries k ≡ some x
      → known_revision (finish_snapshot s c).0 k ≡ known_revision c k
  finish-known k x at =
      known-Agrees _ _ k finish-compacted
      ∙ compact-known s (set_watermark s c).id_revisions (set_watermark s c) k x
          (rw ((set_watermark-Agrees s c).entries) at)
      ∙ known-Agrees c _ k (set_watermark-Agrees s c)

module _ (s : ScheduleSnapshot) (c : Cache) where
  abbrev merged : Cache
  merged = (for_each apply_watch_update_locked s.rows c).0

  abbrev cleared : Cache
  cleared = (drop_missing s (row_ids [] s.rows) merged.entries merged).0

  merged-IsWellFormed : IsWellFormed c → IsWellFormed merged
  merged-IsWellFormed h =
      (Keeps-for_each apply_watch_update_locked Keeps-apply_watch_update_locked s.rows).at c h

  merged_ok :
      (r : Result Unit)
      → (for_each apply_watch_update_locked s.rows c).1 ≡ r
      → (install_snapshot s c).1 ≡ ok true
      → r ≡ ok tt
  unfolding install_snapshot
  merged_ok (ok a) e done = refl
  merged_ok (raise x) e done = ground arith

  -- The three stages of an installation that returns.
  install-eq-finish :
      IsWellFormed c
      → (install_snapshot s c).1 ≡ ok true
      → install_snapshot s c ≡ finish_snapshot s cleared
  unfolding install_snapshot
  install-eq-finish h done =
      bind_ok (for_each apply_watch_update_locked s.rows)
        (λ _ x. (drop_missing s (row_ids [] s.rows) x.entries >> finish_snapshot s) x) c tt
        (merged_ok (for_each apply_watch_update_locked s.rows c).1 refl done)
      ∙ bind_ok (drop_missing s (row_ids [] s.rows) merged.entries) (λ _. finish_snapshot s) merged
          tt (drop_missing_ok s (row_ids [] s.rows) merged.entries merged (merged-IsWellFormed h))

  survivor :
      (k : Uuid) (x : ScheduleEntry)
      → IsWellFormed c
      → get cleared.entries k ≡ some x
      → (get merged.entries k ≡ some x)
        × (dropped s (row_ids [] s.rows) merged k (get merged.entries k) ≡ false)
  survivor k x h at = ground (
    arith,
    drop_missing_lem s (row_ids [] s.rows) merged.entries merged k (merged-IsWellFormed h)
        (merged-IsWellFormed h).counted.distinct,
  )

  reconciled :
      (k : Uuid) (x : ScheduleEntry)
      → IsWellFormed c
      → get (finish_snapshot s cleared).0.entries k ≡ some x
      → in_scope s x.project_id ≡ true
      → (contains (row_ids [] s.rows) k ≡ true)
        ⊎ (s.watermark < known_revision (finish_snapshot s cleared).0 k)
  reconciled k x h at scope =
      let kept = ap (λ (d : Dict ScheduleEntry). get d k) (finish-entries s cleared) in
      let there : get cleared.entries k ≡ some x = sym kept ∙ at in
      let found = survivor k x h there in
      ground (
        arith,
        found,
        finish-known s cleared k x there,
        drop_missing-known s (row_ids [] s.rows) merged.entries merged k (merged-IsWellFormed h)
            (merged-IsWellFormed h).counted.distinct,
      )

-- After a snapshot that returned `True` on a well-formed cache, each row of a project in the
-- snapshot's scope has an id that the snapshot lists, or a known revision above the snapshot's
-- watermark.
pub snapshot_exact :
    (digest : ScheduleSnapshot → Text) (s : ScheduleSnapshot) (c c' : Cache) (k : Uuid)
    (x : ScheduleEntry)
    → IsWellFormed c
    → apply_completed_snapshot digest s c ≡ (c', ok true)
    → get c'.entries k ≡ some x
    → in_scope s x.project_id ≡ true
    → (contains (row_ids [] s.rows) k ≡ true) ⊎ (s.watermark < known_revision c' k)
snapshot_exact digest s c c' k x h done at scope = elim (snapshot_outcome digest s c) [
  | inl (_, refused) ↦ absurd (refused (ap (λ (r : Cache × Result Bool). r.1) done))
  | inr (installed, _, _) ↦
      let result : install_snapshot s c ≡ (c', ok true) = sym installed ∙ done in
      let returned = ap (λ (r : Cache × Result Bool). r.1) result in
      let landed : (finish_snapshot s (cleared s c)).0 ≡ c' =
        ap (λ (r : Cache × Result Bool). r.0) (sym (install-eq-finish s c h returned) ∙ result) in
      subst (λ y. (contains (row_ids [] s.rows) k ≡ true) ⊎ (s.watermark < known_revision y k))
        landed (reconciled s c k x h (rw landed at) scope)
]
