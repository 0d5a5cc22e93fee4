-- ===== src/Cache/Watch/Clamp.antt =====
-- storage/cache.py: when a stored row is enabled, and what ends a latch.
use z4j_scheduler.Prelude.{
  ℕ, ◌≡◌, refl, subst, Bool, true, false, none, some, arith, ◌&&◌, not, if◌then◌else◌, inl, inr,
  ==_refl, Option-cases, max,
}
use z4j_scheduler.Dict.{get, put}
use z4j_scheduler.Dict.Laws.{put-put, put-get, get-put}
use z4j_scheduler.Entry.{
  Uuid, ScheduleEntry, BrainPayload, schedule_brain_payload, schedule_control_identity,
  control_identity_eq,
}
use z4j_scheduler.Cache.State.{Cache, set_changed}
use z4j_scheduler.Cache.Latches.{
  token_is, stop_is_superseded, apply_local_quarantine_locked, apply_current_stop_locked,
  latch_current_stop, release_current_stop,
}
use z4j_scheduler.Cache.Invariant.{IsWellFormed}
use z4j_scheduler.Cache.Watch.{
  remember, install_row, accept, watch_verdict, merge_fire_state, apply_watch_update_locked,
}
use z4j_scheduler.Cache.Watch.Install.{clamped}
use z4j_scheduler.Cache.Watch.Order.{update_accepted, install-entry}
use z4j_scheduler.Cache.Invariant.Merging.{merge-eq}

-- A quarantine of the row's own generation.
abbrev pub quarantine_holds : Cache → ScheduleEntry → Bool
quarantine_holds c e = elim (get c.local_quarantines e.id) [
  | none ↦ false
  | some q ↦ control_identity_eq q.definition_identity (schedule_control_identity e)
]

-- A stop of the row's own generation that the row's revision has not overtaken.
abbrev pub stop_holds : Cache → ScheduleEntry → Bool
stop_holds c e = elim (get c.current_stop_latches e.id) [
  | none ↦ false
  | some s ↦
      token_is e.control_token s.control_token
      && not (stop_is_superseded e.schedule_revision s.refused_at_revision)
]

quarantine-enabled :
    (e : ScheduleEntry) (c : Cache)
    → (apply_local_quarantine_locked e c).1.is_enabled
      ≡ (e.is_enabled && not (quarantine_holds c e))
unfolding apply_local_quarantine_locked
quarantine-enabled e c = ground arith

stop-enabled :
    (e : ScheduleEntry) (c : Cache)
    → (apply_current_stop_locked e c).1.is_enabled ≡ (e.is_enabled && not (stop_holds c e))
unfolding apply_current_stop_locked
stop-enabled e c = ground arith

-- The stops are untouched by the quarantines, and a clamp leaves what a stop looks at.
stop_after_quarantine :
    (e : ScheduleEntry) (c : Cache)
    → stop_holds (apply_local_quarantine_locked e c).0 (apply_local_quarantine_locked e c).1
      ≡ stop_holds c e
unfolding apply_local_quarantine_locked
stop_after_quarantine e c = ground arith

clamped-enabled :
    (p : BrainPayload) (e : ScheduleEntry) (c : Cache)
    → (clamped p e c).is_enabled
      ≡ (e.is_enabled && not (quarantine_holds c e) && not (stop_holds c e))
unfolding remember
clamped-enabled p e c = ground (
  arith,
  quarantine-enabled e (remember p e c),
  stop-enabled (apply_local_quarantine_locked e (remember p e c)).1
      (apply_local_quarantine_locked e (remember p e c)).0,
  stop_after_quarantine e (remember p e c),
)

merge-latches :
    (c : Cache) (e : ScheduleEntry)
    → ((merge_fire_state c e).id ≡ e.id)
      × ((merge_fire_state c e).is_enabled ≡ e.is_enabled)
      × (quarantine_holds c (merge_fire_state c e) ≡ quarantine_holds c e)
      × (stop_holds c (merge_fire_state c e) ≡ stop_holds c e)
merge-latches c e = rw merge-eq (refl, refl, refl, refl)

-- A Watch update that a well-formed cache accepts stores a row, and the row is enabled exactly if
-- the incoming row is enabled and neither a quarantine of its definition nor an unsuperseded stop
-- of its control token holds it.
pub watch_update-enabled :
    (c : Cache) (e : ScheduleEntry)
    → IsWellFormed c
    → watch_verdict c e ≡ accept
    → (x : ScheduleEntry) × (get (apply_watch_update_locked e c).0.entries e.id ≡ some x)
      × (x.is_enabled ≡ (e.is_enabled && not (quarantine_holds c e) && not (stop_holds c e)))
watch_update-enabled c e h taken =
    let m = merge_fire_state c e in
    let p = schedule_brain_payload e in
    let same = merge-latches c e in
    (
      clamped p m c,
      rw (update_accepted c e taken) (
          subst (λ k. get (install_row p m c).0.entries k ≡ some (clamped p m c)) same.0
            (install-entry p m c h)),
      ground (arith, clamped-enabled p m c, same),
    )

-- The cache after a stop was installed on a row.
abbrev pub stopped_cache : Uuid → Uuid → ℕ → ScheduleEntry → Cache → Cache
stopped_cache k token refused e c = set_changed (record c {
  current_stop_latches = put c.current_stop_latches k (record {
    control_token = token;
    refused_at_revision = max 0 refused;
    brain_enabled = e.is_enabled;
  });
  entries = put c.entries k (record e { is_enabled = false });
})

-- A stop of a cached row is installed exactly if the row has the refused control token and its
-- revision has not reached that of the refusal; otherwise nothing changes.
pub latch_outcome :
    (k token : Uuid) (refused : ℕ) (c : Cache) (e : ScheduleEntry)
    → get c.entries k ≡ some e
    → latch_current_stop k token refused c ≡ (
        if token_is e.control_token token && not (stop_is_superseded e.schedule_revision refused)
        then (stopped_cache k token refused e c, true)
        else (c, false))
unfolding latch_current_stop
latch_outcome k token refused c e at = ground arith

latch_absent :
    (k token : Uuid) (refused : ℕ) (c : Cache)
    → get c.entries k ≡ none
    → latch_current_stop k token refused c ≡ (c, false)
unfolding latch_current_stop
latch_absent k token refused c gone = ground arith

release_stopped :
    (c : Cache) (k token : Uuid) (refused : ℕ) (e : ScheduleEntry)
    → get c.entries k ≡ some e
    → token_is e.control_token token ≡ true
    → ((release_current_stop k token (stopped_cache k token refused e c)).1 ≡ true)
      × ((release_current_stop k token (stopped_cache k token refused e c)).0.entries
          ≡ put (put c.entries k (record e { is_enabled = false })) k e)
      × ((release_current_stop k token (stopped_cache k token refused e c)).0.local_quarantines
          ≡ c.local_quarantines)
unfolding release_current_stop
release_stopped c k token refused e at ours = ground (
  arith,
  get-put c.current_stop_latches k k (record {
    control_token = token;
    refused_at_revision = max 0 refused;
    brain_enabled = e.is_enabled;
  }),
  get-put c.entries k k (record e { is_enabled = false }),
  ==_refl k,
  ==_refl token,
)

-- When a stop was installed, to release it right after returns `True` and gives the rows back as
-- they were.
pub release-latch :
    (c : Cache) (k token : Uuid) (refused : ℕ)
    → (latch_current_stop k token refused c).1 ≡ true
    → ((release_current_stop k token (latch_current_stop k token refused c).0).1 ≡ true)
      × ((release_current_stop k token (latch_current_stop k token refused c).0).0.entries
          ≡ c.entries)
release-latch c k token refused done = elim (Option-cases (get c.entries k)) [
  | inl gone ↦ cc (latch_absent k token refused c gone)
  | inr (e, at) ↦ ground (
    arith,
    latch_outcome k token refused c e at,
    release_stopped c k token refused e at,
    put-put c.entries k (record e { is_enabled = false }) e,
    put-get c.entries k e at,
  )
]
