-- ===== src/Cache/Invariant/Deleting.antt =====
-- storage/cache.py: the well-formedness of a cache across removals, ordered deletes and absences.
use z4j_scheduler.Prelude.{
  ◌<◌, ℕ, ◌≡◌, refl, ◌⊎◌, inl, inr, Bool, true, false, arith, Option-cases, is_some, if◌then◌else◌,
  List, [], ◌∷◌,
}
use z4j_scheduler.Dict.{get, put, pop}
use z4j_scheduler.Dict.Distinct.{tally}
use z4j_scheduler.Dict.Laws.{get-put, get-pop}
use z4j_scheduler.Entry.{Uuid}
use z4j_scheduler.Cache.State.{Cache, ok, set_changed, >>=-of_ok, ◌>>◌}
use z4j_scheduler.Cache.Rows.{remove_entry_locked}
use z4j_scheduler.Cache.Rows.Counts.{counts_without, remove-eq}
use z4j_scheduler.Cache.Invariant.{IsWellFormed}
use z4j_scheduler.Cache.Invariant.Keep.{Agrees, Agrees-IsWellFormed, removed-IsWellFormed}
use z4j_scheduler.Cache.Invariant.Monad.{Keeps}
use z4j_scheduler.Cache.Watch.{known_revision}
use z4j_scheduler.Cache.Deletes.{
  forget_local, remove_row, forget_evidence, record_absence, remove, clear,
  pause_for_tombstone_pressure_locked, report_tombstone_pressure, pause_and_report, apply_tombstone,
  apply_observed_absence,
}

-- The cache without a row, its latches and its payload.
abbrev pub without_row : Uuid → Cache → Cache
without_row k c = record c {
  entries = pop c.entries k;
  project_counts = counts_without k c;
  local_quarantines = pop c.local_quarantines k;
  current_stop_latches = pop c.current_stop_latches k;
  brain_payloads = pop c.brain_payloads k;
}

-- The cache after a row was forgotten altogether.
abbrev pub forgotten : Uuid → Cache → Cache
forgotten k c = record (without_row k c) {
  id_revisions = pop c.id_revisions k;
  id_projects = pop c.id_projects k;
}

-- The cache after an absence was recorded in the place of a row.
abbrev pub absent : Uuid → Uuid → ℕ → Cache → Cache
absent k p revision c = record (without_row k c) {
  id_revisions = put c.id_revisions k revision;
  id_projects = put c.id_projects k p;
}

pub forgotten-IsWellFormed : (k : Uuid) (c : Cache) → IsWellFormed c → IsWellFormed (forgotten k c)
forgotten-IsWellFormed k c h = removed-IsWellFormed c (forgotten k c) k h refl refl (record {
  revisions = λ j other. rw (get-pop, other);
  projects = λ j other. rw (get-pop, other);
  payloads = λ j other. rw (get-pop, other);
})

pub absent-IsWellFormed :
    (k p : Uuid) (revision : ℕ) (c : Cache) → IsWellFormed c → IsWellFormed (absent k p revision c)
absent-IsWellFormed k p revision c h =
    removed-IsWellFormed c (absent k p revision c) k h refl refl (record {
      revisions = λ j other. rw (get-put, other);
      projects = λ j other. rw (get-put, other);
      payloads = λ j other. rw (get-pop, other);
    })

pub remove-eq-forgotten :
    (k : Uuid) (c : Cache)
    → IsWellFormed c
    → remove k c ≡ (
      (if is_some (get c.entries k) then set_changed (forgotten k c) else forgotten k c),
      ok (is_some (get c.entries k)),
    )
unfolding remove forget_local forget_evidence
remove-eq-forgotten k c h =
    >>=-of_ok (remove_entry_locked k)
      (λ row. do
        forget_local k
        forget_evidence k
        λ c'. (if is_some row then set_changed c' else c', ok (is_some row)))
      (remove-eq c h.counted k)

changed-IsWellFormed :
    (b : Bool) (c : Cache) → IsWellFormed c → IsWellFormed (if b then set_changed c else c)
changed-IsWellFormed true c h = Agrees-IsWellFormed c (set_changed c) (ground arith) h
changed-IsWellFormed false c h = h

pub Keeps-remove : (k : Uuid) → Keeps (remove k)
Keeps-remove k = record {
  at = λ c h. rw (remove-eq-forgotten k c h) (
      changed-IsWellFormed (is_some (get c.entries k)) (forgotten k c)
        (forgotten-IsWellFormed k c h));
}

pub clear-IsWellFormed : (c : Cache) → IsWellFormed (clear c)
unfolding clear get tally
clear-IsWellFormed c = record {
  counted = record { distinct = tt; counted = λ p. refl };
  rows = λ k e at. cc;
}

-- The pause and its report touch no row and no evidence.
pub report-Agrees :
    (calls : List (Uuid × ℕ)) (c : Cache) → Agrees c (report_tombstone_pressure calls c)
unfolding report_tombstone_pressure
report-Agrees [] c = ground arith
report-Agrees (call ∷ calls) c = ground (
  arith,
  report-Agrees calls c,
  report-Agrees calls (record c { snapshot_requests = call ∷ c.snapshot_requests }),
)

pub pause-Agrees : (p : Uuid) (c : Cache) → Agrees c (pause_for_tombstone_pressure_locked p c).0
unfolding pause_for_tombstone_pressure_locked
pause-Agrees p c = ground arith

pub pause_and_report-Agrees : (p : Uuid) (c : Cache) → Agrees c (pause_and_report p c).0
unfolding pause_and_report
pause_and_report-Agrees p c = elim (Option-cases (pause_for_tombstone_pressure_locked p c).1) [
  | inl quiet ↦ ground (arith, pause-Agrees p c)
  | inr (n, paused) ↦ ground (
    arith,
    pause-Agrees p c,
    report-Agrees ((p, n) ∷ []) (set_changed (pause_for_tombstone_pressure_locked p c).0),
  )
]

pub remove_row-eq :
    (k : Uuid) (c : Cache) → IsWellFormed c → remove_row k c ≡ (without_row k c, ok tt)
unfolding remove_row forget_local
remove_row-eq k c h =
    >>=-of_ok (remove_entry_locked k) (λ _. forget_local k) (remove-eq c h.counted k)

-- What an ordered delete that passes its checks does.
pub delete-eq :
    (k p : Uuid) (revision : ℕ) (c : Cache)
    → IsWellFormed c
    → (do remove_row k; record_absence k p revision; pause_and_report p) c
      ≡ pause_and_report p (absent k p revision c)
unfolding record_absence
delete-eq k p revision c h =
    >>=-of_ok (remove_row k) (λ _. record_absence k p revision >> pause_and_report p)
      (remove_row-eq k c h)

pub observe-eq :
    (k p : Uuid) (revision : ℕ) (c : Cache)
    → IsWellFormed c
    → (do remove_row k; record_absence k p revision; λ c'. (set_changed c', ok true)) c
      ≡ (set_changed (absent k p revision c), ok true)
unfolding record_absence
observe-eq k p revision c h =
    >>=-of_ok (remove_row k) (λ _. record_absence k p revision >> λ c'. (set_changed c', ok true))
      (remove_row-eq k c h)

-- An ordered delete leaves the cache alone, or records the absence.
pub tombstone_outcome :
    (k p : Uuid) (revision : ℕ) (c : Cache)
    → IsWellFormed c
    → ((apply_tombstone k p revision c).0 ≡ c)
      ⊎ ((apply_tombstone k p revision c ≡ pause_and_report p (absent k p revision c))
          × (known_revision c k < revision))
unfolding apply_tombstone
tombstone_outcome k p revision c h = ground (arith, delete-eq k p revision c h)

-- A delete that returns `True` has recorded the absence.
pub tombstone_done :
    (k p : Uuid) (revision : ℕ) (c : Cache) {c' : Cache}
    → IsWellFormed c
    → apply_tombstone k p revision c ≡ (c', ok true)
    → apply_tombstone k p revision c ≡ pause_and_report p (absent k p revision c)
unfolding apply_tombstone
tombstone_done k p revision c h done = ground (arith, delete-eq k p revision c h)

pub absence_outcome :
    (k p : Uuid) (observed : ℕ) (c : Cache)
    → IsWellFormed c
    → ((apply_observed_absence k p observed c).0 ≡ c)
      ⊎ ((apply_observed_absence k p observed c ≡ (set_changed (absent k p observed c), ok true))
          × (known_revision c k < observed))
unfolding apply_observed_absence
absence_outcome k p observed c h = ground (arith, observe-eq k p observed c h)

pub Keeps-apply_tombstone : (k p : Uuid) (revision : ℕ) → Keeps (apply_tombstone k p revision)
Keeps-apply_tombstone k p revision = record {
  at = λ c h. elim (tombstone_outcome k p revision c h) [
    | inl kept ↦ rw kept h
    | inr (done, _) ↦ rw done (
        Agrees-IsWellFormed _ _ (pause_and_report-Agrees p (absent k p revision c))
          (absent-IsWellFormed k p revision c h))
  ];
}

pub Keeps-apply_observed_absence :
    (k p : Uuid) (observed : ℕ) → Keeps (apply_observed_absence k p observed)
Keeps-apply_observed_absence k p observed = record {
  at = λ c h. elim (absence_outcome k p observed c h) [
    | inl kept ↦ rw kept h
    | inr (done, _) ↦ rw done (changed-IsWellFormed true _ (absent-IsWellFormed k p observed c h))
  ];
}
