-- ===== src/Cache/Races.antt =====
-- storage/cache.py: two latches, or a latch and an update, that meet in one row.
pub mod Tests
use z4j_scheduler.Prelude.{
  ℕ, ◌<◌, ◌≡◌, refl, ap, sym, true, false, none, some, arith, Text, is_some, ==_refl, ==_iff, max,
}
use z4j_scheduler.Dict.{get, put, get_or}
use z4j_scheduler.Dict.Laws.{get-put}
use z4j_scheduler.Entry.{
  BrainPayload, Uuid, ScheduleEntry, schedule_control_identity, control_identity_eq_iff,
  schedule_brain_payload, payload_eq, payload_eq_iff,
}
use z4j_scheduler.Cache.State.{Cache, ok, raise, conflicting_update, set_changed}
use z4j_scheduler.Cache.Latches.{
  token_is, stop_is_superseded, latch_current_stop, release_current_stop, quarantine_locally,
  bounded_code, bounded_detail,
}
use z4j_scheduler.Cache.Cursor.{Transition, advance_row, apply_cursor_transition}
use z4j_scheduler.Cache.Invariant.{IsWellFormed}
use z4j_scheduler.Cache.Invariant.Advancing.{advanced}
use z4j_scheduler.Cache.Watch.{
  well_shaped, known_revision, watch_verdict, accept, reject, apply_watch_update_locked,
}
use z4j_scheduler.Cache.Watch.Order.{update_rejected}
use z4j_scheduler.Cache.Watch.Clamp.{stopped_cache, latch_outcome, watch_update-enabled}

-- A Watch update that reuses the revision of a recorded delete brings the row back.
reuse_accepted :
    (c : Cache) (e : ScheduleEntry)
    → get c.entries e.id ≡ none
    → known_revision c e.id ≡ e.schedule_revision
    → well_shaped e ≡ true
    → watch_verdict c e ≡ accept
unfolding watch_verdict
reuse_accepted c e gone known shape = ground (arith, gone)

-- On a well-formed cache, a valid Watch update of an id without a row whose revision equals the
-- known revision brings the row into the cache.
pub reused_revision_revives :
    (c : Cache) (e : ScheduleEntry)
    → IsWellFormed c
    → get c.entries e.id ≡ none
    → known_revision c e.id ≡ e.schedule_revision
    → well_shaped e ≡ true
    → is_some (get (apply_watch_update_locked e c).0.entries e.id) ≡ true
reused_revision_revives c e h gone known shape =
    let (x, stored, _) = watch_update-enabled c e h (reuse_accepted c e gone known shape) in
    ap is_some stored

-- After two stops on one row, each of its control token and not superseded, the release leaves the
-- row disabled, whatever it was before.
pub second_stop_forgets :
    (c : Cache) (k token : Uuid) (r₁ r₂ : ℕ) (e : ScheduleEntry)
    → get c.entries k ≡ some e
    → token_is e.control_token token ≡ true
    → stop_is_superseded e.schedule_revision r₁ ≡ false
    → stop_is_superseded e.schedule_revision r₂ ≡ false
    → get
        (release_current_stop k token
          (latch_current_stop k token r₂ (latch_current_stop k token r₁ c).0).0).0.entries
        k
      ≡ some (record e { is_enabled = false })
unfolding latch_current_stop release_current_stop
second_stop_forgets c k token r₁ r₂ e at ours live₁ live₂ =
    let f = record e { is_enabled = false } in
    ground (
      arith,
      get-put c.entries k k f,
      get-put (put c.entries k f) k k f,
      get-put (put (put c.entries k f) k f) k k f,
      get-put c.current_stop_latches k k (record {
        control_token = token;
        refused_at_revision = max 0 r₁;
        brain_enabled = e.is_enabled;
      }),
      get-put
          (put c.current_stop_latches k (record {
            control_token = token;
            refused_at_revision = max 0 r₁;
            brain_enabled = e.is_enabled;
          }))
          k k
          (record { control_token = token; refused_at_revision = max 0 r₂; brain_enabled = false }),
      ==_refl k,
      ==_refl token,
    )

-- The cache after the row of a stop was quarantined.
abbrev both : Uuid → Uuid → ℕ → ScheduleEntry → Text → Text → Cache → Cache
both k token refused e code detail c =
    let s = stopped_cache k token refused e c in
    set_changed (record s {
      local_quarantines = put c.local_quarantines k (record {
        definition_identity = schedule_control_identity e;
        code = bounded_code code;
        detail = bounded_detail detail;
      });
      entries =
          put (put c.entries k (record e { is_enabled = false })) k
            (record e { is_enabled = false });
    })

quarantine_stopped :
    (c : Cache) (k token : Uuid) (refused : ℕ) (e : ScheduleEntry) (code detail : Text)
    → quarantine_locally k e code detail (stopped_cache k token refused e c)
      ≡ (both k token refused e code detail c, true)
unfolding quarantine_locally
quarantine_stopped c k token refused e code detail = ground (
  arith,
  get-put c.entries k k (record e { is_enabled = false }),
  ==_refl k,
  (control_identity_eq_iff (schedule_control_identity e) (schedule_control_identity e)).1 refl,
)

release_both :
    (c : Cache) (k token : Uuid) (refused : ℕ) (e : ScheduleEntry) (code detail : Text)
    → token_is e.control_token token ≡ true
    → (get (release_current_stop k token (both k token refused e code detail c)).0.entries k
        ≡ some e)
      × (is_some (
            get
              (release_current_stop k token
                (both k token refused e code detail c)).0.local_quarantines
              k)
          ≡ true)
unfolding release_current_stop
release_both c k token refused e code detail ours =
    let f = record e { is_enabled = false } in
    ground (
      arith,
      get-put (put c.entries k f) k k f,
      get-put (put (put c.entries k f) k f) k k e,
      get-put c.current_stop_latches k k (record {
        control_token = token;
        refused_at_revision = max 0 refused;
        brain_enabled = e.is_enabled;
      }),
      get-put c.local_quarantines k k (record {
        definition_identity = schedule_control_identity e;
        code = bounded_code code;
        detail = bounded_detail detail;
      }),
      ==_refl k,
      ==_refl token,
    )

-- When a row is stopped, then quarantined, and the stop is released, the row is back as it was
-- before the stop, enabled if it was enabled, and the quarantine is still held.
pub release_lifts_quarantine :
    (c : Cache) (k token : Uuid) (refused : ℕ) (e : ScheduleEntry) (code detail : Text)
    → get c.entries k ≡ some e
    → token_is e.control_token token ≡ true
    → stop_is_superseded e.schedule_revision refused ≡ false
    → (get
          (release_current_stop k token
            (quarantine_locally k e code detail
              (latch_current_stop k token refused c).0).0).0.entries
          k
        ≡ some e)
      × (is_some (
            get
              (release_current_stop k token
                (quarantine_locally k e code detail
                  (latch_current_stop k token refused c).0).0).0.local_quarantines
              k)
          ≡ true)
release_lifts_quarantine c k token refused e code detail at ours live =
    let latch : latch_current_stop k token refused c ≡ (stopped_cache k token refused e c, true) =
      ground (arith, latch_outcome k token refused c e at) in
    rw (latch, quarantine_stopped c k token refused e code detail)
      (release_both c k token refused e code detail ours)

-- A payload of an enabled row is none of a disabled row.
enabled_differs :
    (a b : ScheduleEntry)
    → a.is_enabled ≡ false
    → b.is_enabled ≡ true
    → payload_eq (schedule_brain_payload a) (schedule_brain_payload b) ≡ false
enabled_differs a b off on =
    ground (arith, (payload_eq_iff (schedule_brain_payload a) (schedule_brain_payload b)).0)

conflict_verdict :
    (c : Cache) (e x : ScheduleEntry) (p : BrainPayload)
    → get c.entries x.id ≡ some e
    → get c.brain_payloads x.id ≡ some p
    → payload_eq p (schedule_brain_payload x) ≡ false
    → known_revision c x.id ≡ x.schedule_revision
    → e.schedule_revision ≡ x.schedule_revision
    → 0 < x.schedule_revision
    → x.project_id ≡ e.project_id
    → is_some e.control_token ≡ true
    → is_some x.control_token ≡ true
    → well_shaped x ≡ true
    → watch_verdict c x ≡ reject conflicting_update
unfolding watch_verdict
conflict_verdict c e x p at sent other known same pos project current token shape =
    ground (arith, ==_iff x.project_id e.project_id)

-- When a cursor transition was accepted on a disabled row of the current protocol, a valid update
-- of the id, of the same project, with a control token, the committed revision and the row enabled,
-- raises a conflict.
pub echo_conflicts :
    (c : Cache) (k : Uuid) (t : Transition) (e x : ScheduleEntry)
    → get c.entries k ≡ some e
    → e.is_enabled ≡ false
    → is_some e.control_token ≡ true
    → apply_cursor_transition k t c ≡ (advanced k t e c, ok true)
    → x.id ≡ k
    → x.project_id ≡ e.project_id
    → x.schedule_revision ≡ t.committed_revision
    → 0 < t.committed_revision
    → x.is_enabled ≡ true
    → is_some x.control_token ≡ true
    → well_shaped x ≡ true
    → apply_watch_update_locked x (apply_cursor_transition k t c).0
      ≡ ((apply_cursor_transition k t c).0, raise conflicting_update)
unfolding advance_row known_revision get_or
echo_conflicts c k t e x at disabled current done id project revision pos enabled token shape =
    let f = advance_row t e in
    rw done (
      update_rejected (advanced k t e c) x conflicting_update (
        conflict_verdict (advanced k t e c) f x (schedule_brain_payload f)
          (rw id (ground (arith, get-put c.entries k k f, ==_refl k)))
          (rw id
            (ground (arith, get-put c.brain_payloads k k (schedule_brain_payload f), ==_refl k)))
          (enabled_differs f x disabled enabled)
          (rw id (ground (arith, get-put c.id_revisions k k t.committed_revision, ==_refl k)))
          (sym revision) (rw revision pos) project current token shape))
