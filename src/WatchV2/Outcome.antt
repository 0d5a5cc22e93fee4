-- ===== src/WatchV2/Outcome.antt =====
-- storage/_watch_v2.py: what a frame of the ordered Watch stream does to the applier.
use z4j_scheduler.Prelude.{
  ℕ, ◌<◌, ◌≡◌, refl, ap, ◌∙◌, true, none, some, arith, inl, inr, if◌then◌else◌, is_some, le→leb,
  not, ◌||◌, ◌==◌,
}
use z4j_scheduler.Entry.{Uuid, ScheduleEntry, schedule_brain_payload}
use z4j_scheduler.Cache.State.{
  Cache, Result, ok, raise, watch_not_increasing, malformed_upsert, upsert_mismatch,
  malformed_tombstone, >>=-of_ok, >>=-of_raise,
}
use z4j_scheduler.Cache.Invariant.{IsWellFormed}
use z4j_scheduler.Cache.Invariant.Deleting.{absent, tombstone_outcome}
use z4j_scheduler.Cache.Watch.{
  apply_watch_update, apply_watch_update_locked, mark_changed, merge_fire_state, Verdict,
  watch_verdict, reject, ignore, accept,
}
use z4j_scheduler.Cache.Watch.Order.{update_ignored, update_accepted, update_rejected}
use z4j_scheduler.Cache.Watch.Install.{install-eq}
use z4j_scheduler.Cache.Deletes.{
  apply_tombstone, pause_and_report, pause_for_tombstone_pressure_locked,
}
use z4j_scheduler.WatchV2.{
  Frame, OrderedWatchApplier, ScheduleChange, ScannedThrough, change, scanned, revision, advance,
  apply, apply_change, apply_scanned, apply_upsert, apply_deletion,
}

-- A step of the cache that raises leaves the cache as it was.
abbrev pub FailsClosed : {A : Type 0} → Cache → Cache × Result A → Type 0
FailsClosed {A} c (c', r) = elim r [ ok _ ↦ Unit | raise e ↦ c' ≡ c ]

abbrev pub Outcome : ℕ → OrderedWatchApplier → OrderedWatchApplier × Result (Unit {0}) → Type 0
Outcome n a (a', r) = elim r [ ok _ ↦ (a.cursor < n) × (a'.cursor ≡ n) | raise e ↦ a' ≡ a ]

advance-Outcome :
    {A : Type 0} (n : ℕ) (a : OrderedWatchApplier) (s : Cache × Result A)
    → a.cursor < n
    → FailsClosed a.cache s
    → Outcome n a (advance n a s)
advance-Outcome n a (c, ok x) lt h = (lt, refl)
advance-Outcome n a (c, raise e) lt h = ap (λ c. record a { cache = c }) h

FailsClosed-of_kept : {A : Type 0} (c : Cache) (s : Cache × Result A) → s.0 ≡ c → FailsClosed c s
FailsClosed-of_kept c (c', ok a) h = tt
FailsClosed-of_kept c (c', raise e) h = h

FailsClosed-of_ok :
    {A : Type 0} (c : Cache) (s : Cache × Result A) (a : A) → s.1 ≡ ok a → FailsClosed c s
FailsClosed-of_ok c (c', ok b) a h = tt
FailsClosed-of_ok c (c', raise e) a h = cc

mark_changed-ok : (c : Cache) → (mark_changed c).1 ≡ ok tt
mark_changed-ok c = refl

update_at :
    (c : Cache) (e : ScheduleEntry) (v : Verdict)
    → IsWellFormed c
    → watch_verdict c e ≡ v
    → FailsClosed c (apply_watch_update e c)
unfolding apply_watch_update
update_at c e (reject x) h taken = FailsClosed-of_kept c _ (
    ap (λ s. s.0)
      (>>=-of_raise (apply_watch_update_locked e) (λ _. mark_changed)
        (update_rejected c e x taken)))
update_at c e ignore h taken = FailsClosed-of_ok c _ tt (
    ap (λ s. s.1)
      (>>=-of_ok (apply_watch_update_locked e) (λ _. mark_changed) (update_ignored c e taken)))
update_at c e accept h taken = FailsClosed-of_ok c _ tt (
    ap (λ s. s.1)
      (>>=-of_ok (apply_watch_update_locked e) (λ _. mark_changed)
        (update_accepted c e taken
          ∙ install-eq (schedule_brain_payload e) (merge_fire_state c e) c h.counted)))

update-FailsClosed :
    (c : Cache) (e : ScheduleEntry) → IsWellFormed c → FailsClosed c (apply_watch_update e c)
update-FailsClosed c e h = update_at c e (watch_verdict c e) h refl

pause_and_report-ok : (p : Uuid) (c : Cache) → (pause_and_report p c).1 ≡ ok true
unfolding pause_and_report pause_for_tombstone_pressure_locked
pause_and_report-ok p c = ground arith

tombstone-FailsClosed :
    (c : Cache) (k p : Uuid) (n : ℕ) → IsWellFormed c → FailsClosed c (apply_tombstone k p n c)
tombstone-FailsClosed c k p n h = elim (tombstone_outcome k p n c h) [
  | inl kept ↦ FailsClosed-of_kept c _ kept
  | inr (done, _) ↦
      FailsClosed-of_ok c _ true (ap (λ s. s.1) done ∙ pause_and_report-ok p (absent k p n c))
]

scanned-Outcome :
    (f : ScannedThrough) (a : OrderedWatchApplier)
    → a.cursor < f.revision
    → Outcome f.revision a (apply_scanned f a)
unfolding apply_scanned
scanned-Outcome f a lt = ground arith

upsert-Outcome :
    (f : ScheduleChange) (a : OrderedWatchApplier)
    → IsWellFormed a.cache
    → a.cursor < f.revision
    → Outcome f.revision a (apply_upsert f a)
unfolding apply_upsert
upsert-Outcome f a h lt =
    elim f.schedule
      as (λ o. Outcome f.revision a (elim o [
        | none ↦ (a, raise malformed_upsert)
        | some e ↦
            if is_some f.deleted_id
            then (a, raise malformed_upsert)
            else if not (e.project_id == f.project_id) || not (e.schedule_revision == f.revision)
            then (a, raise upsert_mismatch)
            else advance f.revision a (apply_watch_update e a.cache)
      ])) [
        | none ↦ refl
        | some e ↦ ground (
          arith,
          advance-Outcome f.revision a (apply_watch_update e a.cache) lt
              (update-FailsClosed a.cache e h),
        )
      ]

deletion-Outcome :
    (f : ScheduleChange) (a : OrderedWatchApplier)
    → IsWellFormed a.cache
    → a.cursor < f.revision
    → Outcome f.revision a (apply_deletion f a)
unfolding apply_deletion
deletion-Outcome f a h lt =
    elim f.deleted_id
      as (λ o. Outcome f.revision a (elim o [
        | none ↦ (a, raise malformed_tombstone)
        | some k ↦
            if is_some f.schedule
            then (a, raise malformed_tombstone)
            else advance f.revision a (apply_tombstone k f.project_id f.revision a.cache)
      ])) [
        | none ↦ refl
        | some k ↦ ground (
          arith,
          advance-Outcome f.revision a (apply_tombstone k f.project_id f.revision a.cache) lt
              (tombstone-FailsClosed a.cache k f.project_id f.revision h),
        )
      ]

change-Outcome :
    (f : ScheduleChange) (a : OrderedWatchApplier)
    → IsWellFormed a.cache
    → a.cursor < f.revision
    → Outcome f.revision a (apply_change f a)
unfolding apply_change
change-Outcome f a h lt = ground (arith, upsert-Outcome f a h lt, deletion-Outcome f a h lt)

-- A frame applied over a well-formed cache either returns, and then its revision is above the old
-- cursor and is the new cursor, or raises, and then neither the cursor nor the cache has changed.
pub apply-Outcome :
    (f : Frame) (a : OrderedWatchApplier)
    → IsWellFormed a.cache
    → Outcome (revision f) a (apply f a)
unfolding apply
apply-Outcome (scanned f) a h = ground (arith, scanned-Outcome f a)
apply-Outcome (change f) a h = ground (arith, change-Outcome f a h)

cursor_at :
    (n : ℕ) (a : OrderedWatchApplier) (s : OrderedWatchApplier × Result (Unit {0}))
    → Outcome n a s
    → s.1 ≡ ok tt
    → s.0.cursor ≡ n
cursor_at n a (b, ok x) h done = h.1
cursor_at n a (b, raise e) h done = cc

refused :
    (f : Frame) (b : OrderedWatchApplier)
    → b.cursor ≡ revision f
    → apply f b ≡ (b, raise watch_not_increasing)
unfolding apply
refused f b h = ground (arith, le→leb (revision f) b.cursor)

-- A frame that was applied over a well-formed cache is refused when it comes again, and nothing
-- changes.
pub apply_again :
    (f : Frame) (a : OrderedWatchApplier)
    → IsWellFormed a.cache
    → (apply f a).1 ≡ ok tt
    → apply f (apply f a).0 ≡ ((apply f a).0, raise watch_not_increasing)
apply_again f a h done =
    refused f (apply f a).0 (cursor_at (revision f) a (apply f a) (apply-Outcome f a h) done)
