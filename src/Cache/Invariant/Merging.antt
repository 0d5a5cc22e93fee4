-- ===== src/Cache/Invariant/Merging.antt =====
-- storage/cache.py: the well-formedness of a cache across stored and merged rows.
use z4j_scheduler.Prelude.{
  ◌≡◌, refl, ap, sym, ◌∙◌, inl, inr, true, List, [], ◌∷◌, arith, Bool-cases,
}
use z4j_scheduler.Entry.{ScheduleEntry, schedule_brain_payload}
use z4j_scheduler.Cache.State.{Cache}
use z4j_scheduler.Cache.Invariant.{IsWellFormed, lasting}
use z4j_scheduler.Cache.Invariant.Monad.{Keeps, Keeps-bind, Keeps-mark_changed, Keeps-for_each}
use z4j_scheduler.Cache.Watch.{
  well_shaped, upsert_locked, upsert, upsert_many, Verdict, reject, ignore, accept, watch_verdict,
  merge_fire_state, apply_watch_update_locked, apply_watch_update, apply_watch_updates,
  mark_changed, for_each,
}
use z4j_scheduler.Cache.Watch.Install.{install-IsWellFormed}

Keeps-upsert_locked : (e : ScheduleEntry) → Keeps (upsert_locked e)
unfolding upsert_locked
Keeps-upsert_locked e = record {
  at = λ c h. elim (Bool-cases (well_shaped e)) [
    | inl good ↦ rw good (install-IsWellFormed (schedule_brain_payload e) e c h good refl)
    | inr bad ↦ rw bad h
  ];
}

-- Only a well-shaped row is accepted.
pub accept-well_shaped :
    (c : Cache) (e : ScheduleEntry) → watch_verdict c e ≡ accept → well_shaped e ≡ true
unfolding watch_verdict
accept-well_shaped c e h = ground arith

-- The merge moves the three times of the fire-state, and nothing else.
pub merge-eq :
    (c : Cache) (e : ScheduleEntry)
    → merge_fire_state c e ≡ record e {
      anchor_at = (merge_fire_state c e).anchor_at;
      last_fire_at = (merge_fire_state c e).last_fire_at;
      next_fire_at = (merge_fire_state c e).next_fire_at;
    }
unfolding merge_fire_state
merge-eq c e = ground arith

merge-well_shaped :
    (c : Cache) (e : ScheduleEntry) → well_shaped (merge_fire_state c e) ≡ well_shaped e
unfolding well_shaped
merge-well_shaped c e = ap well_shaped (merge-eq c e)

merge-lasting : (c : Cache) (e : ScheduleEntry) → lasting (merge_fire_state c e) ≡ lasting e
merge-lasting c e = ap lasting (merge-eq c e)

merged-IsWellFormed :
    (c : Cache) (e : ScheduleEntry) (v : Verdict)
    → watch_verdict c e ≡ v
    → IsWellFormed c
    → IsWellFormed (apply_watch_update_locked e c).0
unfolding apply_watch_update_locked
merged-IsWellFormed c e (reject x) taken h = rw (taken, apply_watch_update_locked) h
merged-IsWellFormed c e ignore taken h = rw (taken, apply_watch_update_locked) h
merged-IsWellFormed c e accept taken h =
    rw (taken, apply_watch_update_locked)
      (install-IsWellFormed (schedule_brain_payload e) (merge_fire_state c e) c h
        (merge-well_shaped c e ∙ accept-well_shaped c e taken) (sym (merge-lasting c e)))

pub Keeps-apply_watch_update_locked : (e : ScheduleEntry) → Keeps (apply_watch_update_locked e)
Keeps-apply_watch_update_locked e = record {
  at = λ c h. merged-IsWellFormed c e (watch_verdict c e) refl h;
}

pub Keeps-upsert : (e : ScheduleEntry) → Keeps (upsert e)
unfolding upsert
Keeps-upsert e =
    Keeps-bind (upsert_locked e) (λ _. mark_changed) (Keeps-upsert_locked e)
      (λ _. Keeps-mark_changed)

pub Keeps-upsert_many : (es : List ScheduleEntry) → Keeps (upsert_many es)
unfolding upsert_many
Keeps-upsert_many [] = record { at = λ c h. h }
Keeps-upsert_many (e ∷ es) =
    Keeps-bind (for_each upsert_locked (e ∷ es)) (λ _. mark_changed)
      (Keeps-for_each upsert_locked Keeps-upsert_locked (e ∷ es)) (λ _. Keeps-mark_changed)

pub Keeps-apply_watch_update : (e : ScheduleEntry) → Keeps (apply_watch_update e)
unfolding apply_watch_update
Keeps-apply_watch_update e =
    Keeps-bind (apply_watch_update_locked e) (λ _. mark_changed) (Keeps-apply_watch_update_locked e)
      (λ _. Keeps-mark_changed)

pub Keeps-apply_watch_updates : (es : List ScheduleEntry) → Keeps (apply_watch_updates es)
unfolding apply_watch_updates
Keeps-apply_watch_updates [] = record { at = λ c h. h }
Keeps-apply_watch_updates (e ∷ es) =
    Keeps-bind (for_each apply_watch_update_locked (e ∷ es)) (λ _. mark_changed)
      (Keeps-for_each apply_watch_update_locked Keeps-apply_watch_update_locked (e ∷ es))
      (λ _. Keeps-mark_changed)
