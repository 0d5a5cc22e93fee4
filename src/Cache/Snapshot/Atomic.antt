-- ===== src/Cache/Snapshot/Atomic.antt =====
-- storage/cache.py: the cache after a snapshot that raises.
use z4j_scheduler.Prelude.{
  ◌≡◌, All, refl, sym, ◌∙◌, true, false, none, List, [], ◌∷◌, arith, ◌==◌, ◌||◌, not, ltb, is_some,
  inl, inr, Text, Bool-cases,
}
use z4j_scheduler.Dict.{Dict, Set, get, contains, add}
use z4j_scheduler.Dict.Laws.{contains-add}
use z4j_scheduler.Entry.{Uuid, ScheduleEntry}
use z4j_scheduler.Cache.State.{Method, Cache, Error, ok, raise, >>=-of_ok, ◌>>=◌, ◌>>◌}
use z4j_scheduler.Cache.Invariant.{IsWellFormed}
use z4j_scheduler.Cache.Invariant.Monad.{Keeps-for_each}
use z4j_scheduler.Cache.Invariant.Snapshots.{snapshot_outcome, drop-eq}
use z4j_scheduler.Cache.Invariant.Deleting.{forgotten, forgotten-IsWellFormed}
use z4j_scheduler.Cache.Invariant.Merging.{Keeps-apply_watch_update_locked}
use z4j_scheduler.Cache.Watch.{
  well_shaped, known_revision, apply_watch_update_locked, for_each, has_moved,
}
use z4j_scheduler.Cache.Snapshot.{
  drop_missing, install_snapshot, finish_snapshot, row_ids, apply_completed_snapshot,
  ScheduleSnapshot, frame_fault, any_conflict, in_scope,
}
use z4j_scheduler.Cache.Snapshot.Fitting.{AllFit, for_each_ok}

-- No row of the snapshot moves a cached row of the current protocol to another project.
abbrev pub NoMove : Cache → List ScheduleEntry → Type 0
NoMove c = All (λ e. has_moved (get c.entries e.id) e ≡ false)

unseen :
    (seen : Set) (id : Uuid) (es : List ScheduleEntry)
    → All (λ x. contains (add seen id) x.id ≡ false) es
    → All (λ x. (id == x.id) ≡ false) es × All (λ x. contains seen x.id ≡ false) es
unseen seen id [] h = (tt, tt)
unseen seen id (e ∷ es) h =
    let rest = unseen seen id es h.1 in
    let here = sym (contains-add seen id e.id) ∙ h.0 in
    ((ground arith, rest.0), (ground arith, rest.1))

pub frame_here :
    (s : ScheduleSnapshot) (seen : Set) (e : ScheduleEntry) (es : List ScheduleEntry)
    → frame_fault s seen (e ∷ es) ≡ none
    → (well_shaped e ≡ true)
      × (is_some e.control_token ≡ true)
      × (contains seen e.id ≡ false)
      × (frame_fault s (add seen e.id) es ≡ none)
unfolding frame_fault
frame_here s seen e es good = ground arith

frames_fit :
    (s : ScheduleSnapshot) (c : Cache) (seen : Set) (es : List ScheduleEntry)
    → frame_fault s seen es ≡ none
    → any_conflict c es ≡ false
    → NoMove c es
    → AllFit c es × All (λ x. contains seen x.id ≡ false) es
unfolding any_conflict
frames_fit s c seen [] good agreed placed = (tt, tt)
frames_fit s c seen (e ∷ es) good agreed placed =
    let here = frame_here s seen e es good in
    let rest = frames_fit s c (add seen e.id) es here.3 (ground arith) placed.1 in
    let new = unseen seen e.id es rest.1 in
    (
      (
        record { shaped = here.0; current = here.1; placed = placed.0; agreed = ground arith },
        new.0,
        rest.0,
      ),
      (here.2, new.1),
    )

pub drop_missing_ok :
    (s : ScheduleSnapshot) (seen : Set) (items : Dict ScheduleEntry) (c : Cache)
    → IsWellFormed c
    → (drop_missing s seen items c).1 ≡ ok tt
unfolding drop_missing
drop_missing_ok s seen [] c h = refl
drop_missing_ok s seen ((k, e) ∷ items) c h =
    elim (Bool-cases
      (not (in_scope s e.project_id) || contains seen k || ltb s.watermark (known_revision c k))) [
        | inl kept ↦ rw (kept, drop_missing) (drop_missing_ok s seen items c h)
        | inr gone ↦
            rw (gone, drop_missing, drop-eq k (drop_missing s seen items) c h)
              (drop_missing_ok s seen items (forgotten k c) (forgotten-IsWellFormed k c h))
      ]

pub bind_ok :
    {A B : Type 0} (m : Method A) (f : A → Method B) (c : Cache) (a : A)
    → (m c).1 ≡ ok a
    → (m >>= f) c ≡ f a (m c).0
bind_ok m f c a h = >>=-of_ok m f (ground arith)

install_ok :
    (s : ScheduleSnapshot) (c : Cache)
    → IsWellFormed c
    → AllFit c s.rows
    → (install_snapshot s c).1 ≡ ok true
unfolding install_snapshot finish_snapshot
install_ok s c h fit =
    let c' = (for_each apply_watch_update_locked s.rows c).0 in
    let h' =
      (Keeps-for_each apply_watch_update_locked Keeps-apply_watch_update_locked s.rows).at c h in
    rw
      (
        bind_ok (for_each apply_watch_update_locked s.rows)
            (λ _ x. (drop_missing s (row_ids [] s.rows) x.entries >> finish_snapshot s) x) c tt
            (for_each_ok s.rows c h fit),
        bind_ok (drop_missing s (row_ids [] s.rows) c'.entries) (λ _. finish_snapshot s) c' tt
            (drop_missing_ok s (row_ids [] s.rows) c'.entries c' h'),
      )
      refl

-- A snapshot that raises leaves a well-formed cache exactly as it was, when none of its rows moves
-- a cached row of the current protocol to another project.
pub snapshot_atomic :
    (digest : ScheduleSnapshot → Text) (s : ScheduleSnapshot) (c : Cache) (x : Error)
    → IsWellFormed c
    → NoMove c s.rows
    → (apply_completed_snapshot digest s c).1 ≡ raise x
    → (apply_completed_snapshot digest s c).0 ≡ c
snapshot_atomic digest s c x h placed failed = elim (snapshot_outcome digest s c) [
  | inl (kept, _) ↦ kept
  | inr (done, good, agreed) ↦
      let fit = frames_fit s c [] s.rows good agreed placed in cc (install_ok s c h fit.0, done)
]
