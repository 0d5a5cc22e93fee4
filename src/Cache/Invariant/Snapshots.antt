-- ===== src/Cache/Invariant/Snapshots.antt =====
-- storage/cache.py: the well-formedness of a cache across a snapshot.
use z4j_scheduler.Prelude.{
  ◌≢◌, ℕ, ◌≡◌, refl, ◌⊎◌, inl, inr, Bool, true, false, none, arith, Option-cases, Bool-cases, ◌||◌,
  ◌&&◌, not, ltb, leb, is_none, if◌then◌else◌, List, [], ◌∷◌, Text,
}
use z4j_scheduler.Dict.{values, Dict, Set, get, contains, add}
use z4j_scheduler.Dict.Laws.{get-pop}
use z4j_scheduler.Entry.{Uuid, ScheduleEntry}
use z4j_scheduler.Cache.State.{ok, Cache, Method, set_changed, >>=-of_ok, ◌>>◌}
use z4j_scheduler.Cache.Invariant.{IsWellFormed}
use z4j_scheduler.Cache.Invariant.Keep.{Agrees, Agrees-IsWellFormed}
use z4j_scheduler.Cache.Invariant.Monad.{Keeps, Keeps-bind, Keeps-for_each}
use z4j_scheduler.Cache.Invariant.Merging.{Keeps-apply_watch_update_locked}
use z4j_scheduler.Cache.Invariant.Deleting.{
  forgotten, remove_row-eq, forgotten-IsWellFormed, report-Agrees, pause-Agrees,
}
use z4j_scheduler.Cache.Watch.{for_each, known_revision, apply_watch_update_locked}
use z4j_scheduler.Cache.Deletes.{remove_row, drop_evidence, forget_evidence}
use z4j_scheduler.Cache.Snapshot.{
  ScheduleSnapshot, frame_fault, any_conflict, in_scope, in_scope_of, drop_missing, set_watermark,
  compact, repause, settle_pauses, distinct_values, finish_snapshot, install_snapshot,
  apply_completed_snapshot, row_ids,
}

-- The drop of one cached row, as the loop does it.
pub drop-eq :
    (k : Uuid) (rest : Method Unit) (c : Cache)
    → IsWellFormed c
    → (do remove_row k; forget_evidence k; rest) c ≡ rest (forgotten k c)
unfolding forget_evidence
drop-eq k rest c h = >>=-of_ok (remove_row k) (λ _. forget_evidence k >> rest) (remove_row-eq k c h)

pub Keeps-drop_missing :
    (s : ScheduleSnapshot) (seen : Set) (items : Dict ScheduleEntry)
    → Keeps (drop_missing s seen items)
unfolding drop_missing
Keeps-drop_missing s seen [] = record { at = λ c h. h }
Keeps-drop_missing s seen ((k, e) ∷ items) = record {
  at = λ c h.
      elim (Bool-cases (
        not (in_scope s e.project_id) || contains seen k || ltb s.watermark (known_revision c k))) [
          | inl kept ↦ rw (kept, drop_missing) ((Keeps-drop_missing s seen items).at c h)
          | inr gone ↦
              rw (gone, drop_missing, drop-eq k (drop_missing s seen items) c h)
                ((Keeps-drop_missing s seen items).at (forgotten k c)
                  (forgotten-IsWellFormed k c h))
        ];
}

-- The evidence of an id with no row can go.
evidence-IsWellFormed :
    (b : Bool) (k : Uuid) (c : Cache)
    → (b ≡ true → get c.entries k ≡ none)
    → IsWellFormed c
    → IsWellFormed (if b then drop_evidence k c else c)
evidence-IsWellFormed false k c gone h = h
evidence-IsWellFormed true k c gone h = record {
  counted = h.counted;
  rows = λ j x at.
      ground (arith, gone refl, h.rows j x, get-pop c.id_revisions k j, get-pop c.id_projects k j);
}

compact-IsWellFormed :
    (s : ScheduleSnapshot) (items : Dict ℕ) (c : Cache)
    → IsWellFormed c
    → IsWellFormed (compact s items c)
unfolding compact
compact-IsWellFormed s [] c h = h
compact-IsWellFormed s ((k, revision) ∷ items) c h = compact-IsWellFormed s items _ (
    evidence-IsWellFormed
      (in_scope_of s (get c.id_projects k) && is_none (get c.entries k) && leb revision s.watermark)
      k c (λ covered. ground arith) h)

pub set_watermark-Agrees : (s : ScheduleSnapshot) (c : Cache) → Agrees c (set_watermark s c)
unfolding set_watermark
set_watermark-Agrees s c = ground arith

repause-Agrees : (before : Set) (ps : List Uuid) (c : Cache) → Agrees c (repause before ps c).0
unfolding repause
repause-Agrees before [] c = ground arith
repause-Agrees before (p ∷ ps) c = ground (
  arith,
  repause-Agrees before ps c,
  repause-Agrees before ps
      (record c { snapshot_required_projects = add c.snapshot_required_projects p }),
)

pub settle_pauses-Agrees : (s : ScheduleSnapshot) (c : Cache) → Agrees c (settle_pauses s c).0
unfolding settle_pauses
settle_pauses-Agrees s c = elim (Option-cases s.project_id) [
  | inl global ↦ ground (
    arith,
    global,
    repause-Agrees c.snapshot_required_projects (distinct_values (values c.id_projects))
        (record c { snapshot_required_projects = [] }),
  )
  | inr (p, scoped) ↦ ground (arith, scoped, pause-Agrees p c)
]

Agrees-trans : {a b c : Cache} → Agrees a b → Agrees b c → Agrees a c
Agrees-trans p q = ground arith

pub Keeps-finish_snapshot : (s : ScheduleSnapshot) → Keeps (finish_snapshot s)
unfolding finish_snapshot
Keeps-finish_snapshot s = record {
  at = λ c h.
      let c₁ = set_watermark s c in
      let c₂ = compact s c₁.id_revisions c₁ in
      let r = settle_pauses s c₂ in
      Agrees-IsWellFormed c₂ _
        (Agrees-trans (settle_pauses-Agrees s c₂)
          (Agrees-trans {b = set_changed r.0} (ground arith) (report-Agrees r.1 (set_changed r.0))))
        (compact-IsWellFormed s c₁.id_revisions c₁
          (Agrees-IsWellFormed c c₁ (set_watermark-Agrees s c) h));
}

pub Keeps-install_snapshot : (s : ScheduleSnapshot) → Keeps (install_snapshot s)
unfolding install_snapshot
Keeps-install_snapshot s =
    Keeps-bind (for_each apply_watch_update_locked s.rows)
      (λ _ c. (drop_missing s (row_ids [] s.rows) c.entries >> finish_snapshot s) c)
      (Keeps-for_each apply_watch_update_locked Keeps-apply_watch_update_locked s.rows)
      (λ _. record {
        at = λ c h.
            (Keeps-bind (drop_missing s (row_ids [] s.rows) c.entries) (λ _. finish_snapshot s)
                (Keeps-drop_missing s (row_ids [] s.rows) c.entries)
                (λ _. Keeps-finish_snapshot s)).at
              c h;
      })

-- A snapshot touches nothing, or goes through its checks and is installed.
pub snapshot_outcome :
    (digest : ScheduleSnapshot → Text) (s : ScheduleSnapshot) (c : Cache)
    → (((apply_completed_snapshot digest s c).0 ≡ c)
        × ((apply_completed_snapshot digest s c).1 ≢ ok true))
      ⊎ ((apply_completed_snapshot digest s c ≡ install_snapshot s c)
          × (frame_fault s [] s.rows ≡ none)
          × (any_conflict c s.rows ≡ false))
unfolding apply_completed_snapshot
snapshot_outcome digest s c = ground arith

pub Keeps-apply_completed_snapshot :
    (digest : ScheduleSnapshot → Text) (s : ScheduleSnapshot)
    → Keeps (apply_completed_snapshot digest s)
Keeps-apply_completed_snapshot digest s = record {
  at = λ c h. elim (snapshot_outcome digest s c) [
    | inl (kept, _) ↦ rw kept h
    | inr (done, _, _) ↦ rw done ((Keeps-install_snapshot s).at c h)
  ];
}
