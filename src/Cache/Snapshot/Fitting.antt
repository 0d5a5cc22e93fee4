-- ===== src/Cache/Snapshot/Fitting.antt =====
-- storage/cache.py: the rows of a snapshot that pass the checks, and the loop that installs them.
use z4j_scheduler.Prelude.{
  ◌<◌, ◌≡◌, All, refl, ap, ◌∙◌, true, false, List, [], ◌∷◌, arith, ◌==◌, is_some, inl, inr,
  Option-cases,
}
use z4j_scheduler.Dict.{get, get_or}
use z4j_scheduler.Dict.Laws.{get-put}
use z4j_scheduler.Entry.{Uuid, ScheduleEntry, schedule_brain_payload}
use z4j_scheduler.Cache.State.{Cache, Error, Result, ok, >>=-of_ok}
use z4j_scheduler.Cache.Invariant.{IsWellFormed}
use z4j_scheduler.Cache.Invariant.Merging.{Keeps-apply_watch_update_locked, merge-eq}
use z4j_scheduler.Cache.Watch.{
  well_shaped, remember, Verdict, reject, ignore, accept, watch_verdict, merge_fire_state,
  known_revision, apply_watch_update_locked, for_each, has_moved,
}
use z4j_scheduler.Cache.Watch.Install.{clamped, install-eq}
use z4j_scheduler.Cache.Watch.Order.{update_accepted, update_ignored, update_rejected}
use z4j_scheduler.Cache.Snapshot.{conflicts}

-- Everything that the checks of an update look at, for one id.
pub record SameAt (k : Uuid) (c c' : Cache) : Type 0 where
  pub row : get c'.entries k ≡ get c.entries k
  pub revision : known_revision c' k ≡ known_revision c k
  pub payload : get c'.brain_payloads k ≡ get c.brain_payloads k

-- An update of one id leaves every other id alone.
pub update_elsewhere :
    (c : Cache) (e : ScheduleEntry) (k : Uuid) (v : Verdict)
    → watch_verdict c e ≡ v
    → IsWellFormed c
    → (e.id == k) ≡ false
    → SameAt k c (apply_watch_update_locked e c).0
unfolding remember known_revision get_or
update_elsewhere c e k (reject x) taken h other =
    rw (update_rejected c e x taken) (record { row = refl; revision = refl; payload = refl })
update_elsewhere c e k ignore taken h other =
    rw (update_ignored c e taken) (record { row = refl; revision = refl; payload = refl })
update_elsewhere c e k accept taken h other =
    let m = merge_fire_state c e in
    let p = schedule_brain_payload e in
    let id : m.id ≡ e.id = ap (λ (x : ScheduleEntry). x.id) (merge-eq c e) in
    rw (update_accepted c e taken, install-eq p m c h.counted)
      (ground (
        arith,
        id,
        get-put c.entries m.id k (clamped p m c),
        get-put c.id_revisions m.id k m.schedule_revision,
        get-put c.brain_payloads m.id k p,
      ))

-- What the frame checks and the comparison of revisions establish for a row.
pub record IsFit (c : Cache) (e : ScheduleEntry) : Type 0 where
  pub shaped : well_shaped e ≡ true
  pub current : is_some e.control_token ≡ true
  pub placed : has_moved (get c.entries e.id) e ≡ false
  pub agreed : conflicts c e ≡ false

-- A row with a token has a positive revision.
current_pos :
    (e : ScheduleEntry)
    → well_shaped e ≡ true
    → is_some e.control_token ≡ true
    → 0 < e.schedule_revision
unfolding well_shaped
current_pos e shape token = ground arith

-- A fit row is never rejected.
fit_row :
    (c : Cache) (e : ScheduleEntry) (x : Error)
    → IsWellFormed c
    → IsFit c e
    → ¬ (watch_verdict c e ≡ reject x)
unfolding watch_verdict known_revision get_or
fit_row c e x h fit taken = elim (Option-cases (get c.entries e.id)) [
  | inl new ↦ ground (arith, new)
  | inr (old, at) ↦ ground (
    arith,
    at,
    h.rows e.id old at,
    current_pos old (h.rows e.id old at).shaped,
    current_pos e fit.shaped fit.current,
  )
]

IsFit-elsewhere : (c c' : Cache) (e : ScheduleEntry) → SameAt e.id c c' → IsFit c e → IsFit c' e
IsFit-elsewhere c c' e same fit = record {
  shaped = fit.shaped;
  current = fit.current;
  placed = rw (same.row) fit.placed;
  agreed = rw (same.revision, same.payload) fit.agreed;
}

-- Rows that are fit, and whose ids differ.
abbrev pub AllFit : Cache → List ScheduleEntry → Type 0
AllFit c [] = Unit
AllFit c (e ∷ es) = IsFit c e × All (λ x. (e.id == x.id) ≡ false) es × AllFit c es

fit_after :
    (c c' : Cache) (id : Uuid) (es : List ScheduleEntry)
    → ((k : Uuid) → (id == k) ≡ false → SameAt k c c')
    → All (λ x. (id == x.id) ≡ false) es
    → AllFit c es
    → AllFit c' es
fit_after c c' id [] same other fit = tt
fit_after c c' id (e ∷ es) same other fit = (
  IsFit-elsewhere c c' e (same e.id other.0) fit.0,
  fit.1,
  fit_after c c' id es same other.1 fit.2,
)

pub update_ok :
    (c : Cache) (e : ScheduleEntry) (v : Verdict)
    → watch_verdict c e ≡ v
    → IsWellFormed c
    → IsFit c e
    → apply_watch_update_locked e c ≡ ((apply_watch_update_locked e c).0, ok tt)
update_ok c e (reject x) taken h fit = absurd (fit_row c e x h fit taken)
update_ok c e ignore taken h fit = rw (update_ignored c e taken)
update_ok c e accept taken h fit = rw (
  update_accepted c e taken,
  install-eq (schedule_brain_payload e) (merge_fire_state c e) c h.counted,
)

-- A loop over fit rows goes through.
pub for_each_ok :
    (es : List ScheduleEntry) (c : Cache)
    → IsWellFormed c
    → AllFit c es
    → (for_each apply_watch_update_locked es c).1 ≡ ok tt
unfolding for_each
for_each_ok [] c h fit = refl
for_each_ok (e ∷ es) c h fit =
    let c' = (apply_watch_update_locked e c).0 in
    ap (λ (r : Cache × Result Unit). r.1)
      (>>=-of_ok (apply_watch_update_locked e) (λ _. for_each apply_watch_update_locked es)
        (update_ok c e (watch_verdict c e) refl h fit.0))
    ∙ for_each_ok es c' ((Keeps-apply_watch_update_locked e).at c h) (
        fit_after c c' e.id es (λ k other. update_elsewhere c e k (watch_verdict c e) refl h other)
          fit.1 fit.2)
