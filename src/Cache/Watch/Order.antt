-- ===== src/Cache/Watch/Order.antt =====
-- storage/cache.py: the order of Watch updates by revision.
use z4j_scheduler.Prelude.{
  ◌≤◌, ◌<◌, ◌≡◌, refl, ap, subst, ◌∙◌, true, some, arith, ◌==◌, ◌&&◌, if◌then◌else◌, is_some,
  ==_refl, ==_iff,
}
use z4j_scheduler.Dict.{get, get_or}
use z4j_scheduler.Dict.Laws.{get-put}
use z4j_scheduler.Entry.{Uuid, ScheduleEntry, BrainPayload, schedule_brain_payload, payload_eq_iff}
use z4j_scheduler.Cache.State.{Cache, Error, ok, raise}
use z4j_scheduler.Cache.Invariant.{IsWellFormed}
use z4j_scheduler.Cache.Invariant.Merging.{merge-eq, accept-well_shaped}
use z4j_scheduler.Cache.Watch.{
  well_shaped, remember, install_row, Verdict, reject, ignore, accept, watch_verdict,
  merge_fire_state, known_revision, apply_watch_update_locked,
}
use z4j_scheduler.Cache.Watch.Install.{clamped, install-eq}

-- An update of the current protocol below the known revision of its id changes nothing.
pub stale_update :
    (c : Cache) (e : ScheduleEntry)
    → is_some e.control_token ≡ true
    → e.schedule_revision < known_revision c e.id
    → (apply_watch_update_locked e c).0 ≡ c
unfolding apply_watch_update_locked watch_verdict
stale_update c e token old = ground arith

pub update_ignored :
    (c : Cache) (e : ScheduleEntry)
    → watch_verdict c e ≡ ignore
    → apply_watch_update_locked e c ≡ (c, ok tt)
unfolding apply_watch_update_locked
update_ignored c e taken = rw (taken, apply_watch_update_locked)

pub update_accepted :
    (c : Cache) (e : ScheduleEntry)
    → watch_verdict c e ≡ accept
    → apply_watch_update_locked e c
      ≡ install_row (schedule_brain_payload e) (merge_fire_state c e) c
unfolding apply_watch_update_locked
update_accepted c e taken = rw (taken, apply_watch_update_locked)

pub update_rejected :
    (c : Cache) (e : ScheduleEntry) (x : Error)
    → watch_verdict c e ≡ reject x
    → apply_watch_update_locked e c ≡ (c, raise x)
unfolding apply_watch_update_locked
update_rejected c e x taken = rw (taken, apply_watch_update_locked)

module _ (p : BrainPayload) (e : ScheduleEntry) (c : Cache) (h : IsWellFormed c) where
  pub known-install :
      (k : Uuid)
      → known_revision (install_row p e c).0 k
        ≡ (if e.id == k && is_some e.control_token then e.schedule_revision else known_revision c k)
  unfolding known_revision get_or remember
  known-install k =
      rw (install-eq p e c h.counted)
        (ground (arith, get-put c.id_revisions e.id k e.schedule_revision))

  pub install-entry : get (install_row p e c).0.entries e.id ≡ some (clamped p e c)
  install-entry =
      rw (install-eq p e c h.counted)
        (ground (arith, get-put c.entries e.id e.id (clamped p e c), ==_refl e.id))

  pub install-payload :
      is_some e.control_token ≡ true → get (install_row p e c).0.brain_payloads e.id ≡ some p
  unfolding remember
  install-payload token =
      rw (install-eq p e c h.counted)
        (ground (arith, get-put c.brain_payloads e.id e.id p, ==_refl e.id))

-- An accepted update of the current protocol is not below the known revision.
accept-le :
    (c : Cache) (e : ScheduleEntry)
    → watch_verdict c e ≡ accept
    → is_some e.control_token ≡ true
    → known_revision c e.id ≤ e.schedule_revision
unfolding watch_verdict
accept-le c e h token = ground arith

merge-id : (c : Cache) (e : ScheduleEntry) → (merge_fire_state c e).id ≡ e.id
merge-id c e = ap (λ (x : ScheduleEntry). x.id) (merge-eq c e)

merge-token :
    (c : Cache) (e : ScheduleEntry) → (merge_fire_state c e).control_token ≡ e.control_token
merge-token c e = ap (λ (x : ScheduleEntry). x.control_token) (merge-eq c e)

merge-project : (c : Cache) (e : ScheduleEntry) → (merge_fire_state c e).project_id ≡ e.project_id
merge-project c e = ap (λ (x : ScheduleEntry). x.project_id) (merge-eq c e)

merge-revision :
    (c : Cache) (e : ScheduleEntry) → (merge_fire_state c e).schedule_revision ≡ e.schedule_revision
merge-revision c e = ap (λ (x : ScheduleEntry). x.schedule_revision) (merge-eq c e)

watch_update_mono-at :
    (c : Cache) (e : ScheduleEntry) (k : Uuid) (v : Verdict)
    → watch_verdict c e ≡ v
    → IsWellFormed c
    → known_revision c k ≤ known_revision (apply_watch_update_locked e c).0 k
watch_update_mono-at c e k (reject x) taken h = rw (update_rejected c e x taken) (omega arith)
watch_update_mono-at c e k ignore taken h = rw (update_ignored c e taken) (omega arith)
watch_update_mono-at c e k accept taken h =
    rw
      (
        update_accepted c e taken,
        known-install (schedule_brain_payload e) (merge_fire_state c e) c h k,
      )
      (ground (
        arith,
        accept-le c e taken,
        merge-id c e,
        merge-token c e,
        merge-revision c e,
        ==_iff (merge_fire_state c e).id k,
      ))

-- No Watch update lowers the known revision of any id.
pub watch_update_mono :
    (c : Cache) (e : ScheduleEntry) (k : Uuid)
    → IsWellFormed c
    → known_revision c k ≤ known_revision (apply_watch_update_locked e c).0 k
watch_update_mono c e k h = watch_update_mono-at c e k (watch_verdict c e) refl h

-- A row that the cache holds, with the payload that came with it, is ignored when it comes again.
held_is_ignored :
    (c : Cache) (e x : ScheduleEntry)
    → get c.entries e.id ≡ some x
    → x.project_id ≡ e.project_id
    → x.control_token ≡ e.control_token
    → x.schedule_revision ≡ e.schedule_revision
    → known_revision c e.id ≡ e.schedule_revision
    → get c.brain_payloads e.id ≡ some (schedule_brain_payload e)
    → well_shaped e ≡ true
    → is_some e.control_token ≡ true
    → watch_verdict c e ≡ ignore
unfolding watch_verdict well_shaped
held_is_ignored c e x at project token revision known sent shape current = ground (
  arith,
  (payload_eq_iff (schedule_brain_payload e) (schedule_brain_payload e)).1 refl,
  ==_iff e.project_id e.project_id,
)

module _ (c : Cache) (e : ScheduleEntry) (h : IsWellFormed c)
    (token : is_some e.control_token ≡ true) where
  install_settles :
      watch_verdict c e ≡ accept
      → watch_verdict (install_row (schedule_brain_payload e) (merge_fire_state c e) c).0 e ≡ ignore
  unfolding remember
  install_settles taken =
      let m = merge_fire_state c e in
      let p = schedule_brain_payload e in
      let id = merge-id c e in
      let current : is_some m.control_token ≡ true = ap is_some (merge-token c e) ∙ token in
      held_is_ignored _ e (clamped p m c)
        (subst (λ k. get (install_row p m c).0.entries k ≡ some (clamped p m c)) id
          (install-entry p m c h))
        (merge-project c e) (merge-token c e) (merge-revision c e)
        (ground (arith, known-install p m c h e.id, id, current, merge-revision c e, ==_refl e.id))
        (subst (λ k. get (install_row p m c).0.brain_payloads k ≡ some p) id
          (install-payload p m c h current))
        (accept-well_shaped c e taken) token

  idem_at :
      (v : Verdict)
      → watch_verdict c e ≡ v
      → (apply_watch_update_locked e c).1 ≡ ok tt
      → apply_watch_update_locked e (apply_watch_update_locked e c).0
        ≡ ((apply_watch_update_locked e c).0, ok tt)
  idem_at (reject x) taken fine = cc (update_rejected c e x taken)
  idem_at ignore taken fine = rw (update_ignored c e taken, update_ignored c e taken)
  idem_at accept taken fine =
      rw (update_accepted c e taken) (update_ignored _ e (install_settles taken))

  -- On a well-formed cache, a Watch update of a row with a control token that did not raise has no
  -- effect when it is applied again at once.
  pub watch_update_idem :
      (apply_watch_update_locked e c).1 ≡ ok tt
      → apply_watch_update_locked e (apply_watch_update_locked e c).0
        ≡ ((apply_watch_update_locked e c).0, ok tt)
  watch_update_idem fine = idem_at (watch_verdict c e) refl fine
