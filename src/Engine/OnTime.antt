-- ===== src/Engine/OnTime.antt =====
-- tick/engine.py: a slot that was judged to be on time.
use z4j_scheduler.Prelude.{
  ℕ, ◌≡◌, refl, sym, ◌∙◌, subst, Bool, true, false, Option, some, List, [], ◌∷◌, ◌++◌, ==_refl,
  ◌||◌, Bool-cases, inl, inr,
}
use z4j_scheduler.Dict.{get}
use z4j_scheduler.Dict.Laws.{get-put_same}
use z4j_scheduler.Entry.{
  Uuid, Instant, ScheduleEntry, schedule_definition_changed, schedule_definition_changed_refl,
  cadence_eq_iff,
}
use z4j_scheduler.Dispatch.{PreparedFire}
use z4j_scheduler.Tick.Cron.{computed}
use z4j_scheduler.Tick.Cadence.{Calendars, compute_next_fire}
use z4j_scheduler.Engine.{TickEngine, done, Marked, entitlement_max_age}
use z4j_scheduler.Engine.Marks.{
  judge, was_follower_handoff, within, effective_grace, marked_of, marked_eq, prior_grant,
}
use z4j_scheduler.Engine.Backlog.{decide, fires_once}
use z4j_scheduler.Engine.Drain.{
  entered, turn_starts, slot_read, World, Drain, Turned, next, leave, check_slot, is_open, drain,
  resume_at, prepared_for, send_slot, after_turn,
}
use z4j_scheduler.Engine.Fire.{
  next_fire_for, prepare_all, prepare, start_of, drain_plan, run_plan, on_decision, fire_slot,
  fire_next, fire_with_catch_up,
}
use z4j_scheduler.Engine.Turns.{sent_of, send_slot-sent}
use z4j_scheduler.Engine.Sent.{conclude-sent}

module _ (w : World) where
  drain_empty-sent :
      (prepared : List PreparedFire) (token : Option Uuid) (n : ℕ) (x : Turned)
      → (after_turn w x (λ d. drain w prepared token n [] d)).1.sent ≡ sent_of w x
  unfolding drain
  drain_empty-sent prepared token n (leave l d) = refl
  drain_empty-sent prepared token n (next d) = refl

  -- A plan of one slot whose check passes is sent.
  single-sent :
      (p : PreparedFire) (token : Option Uuid) (d c : Drain)
      → check_slot w 0 d ≡ next c
      → (drain w (p ∷ []) token 0 (p.scheduled_for ∷ []) d).1.sent ≡ c.sent ++ (p ∷ [])
  unfolding drain prepared_for
  single-sent p token d c h =
      rw (h, ==_refl p.scheduled_for)
        (drain_empty-sent (p ∷ []) token 1 (send_slot w 0 token p c) ∙ send_slot-sent w 0 token p c)

  decide_on_time :
      (c : Calendars) (e : ScheduleEntry) (t now : Instant)
      → decide c true e t now ≡ done (record { slots = t ∷ []; advance_anchor = t; discarded = 0 })
  unfolding decide
  decide_on_time c e t now = elim (Bool-cases (fires_once e.kind)) [
    | inl h ↦ rw (h, decide) refl
    | inr h ↦ rw (h, decide) refl
  ]

  judge_on_time :
      (now : Instant) (e : ScheduleEntry) (t : Instant) (s : TickEngine)
      → within now t (effective_grace e t s) ≡ true
      → (judge now e t s).1 ≡ true
  unfolding judge
  judge_on_time now e t s h = rw h refl

  -- The check of the first turn passes for a row that is still there, enabled and not replaced.
  first_check :
      (e live : ScheduleEntry) (s : TickEngine)
      → w.is_stopped (turn_starts 0) ≡ false
      → w.replaced (slot_read 0) ≡ false
      → get (w.meanwhile (slot_read 0) s).cache.entries e.id ≡ some live
      → live.id ≡ e.id
      → live.is_enabled ≡ true
      → is_open w 0 live.project_id ≡ true
      → check_slot w 0 (start_of w e s) ≡ next (resume_at w (slot_read 0) (start_of w e s))
  unfolding check_slot schedule_definition_changed
  first_check e live s run same row id on gates =
      rw (run, same, row, id, row, on, schedule_definition_changed_refl live, gates) refl

  prepare_one :
      (e : ScheduleEntry) (t : Instant) (n : Option Instant) (s : TickEngine)
      → compute_next_fire w.calendars w.clock e.kind e (some t) ≡ computed n
      → prepare_all w.calendars w.clock e (t ∷ []) s
        ≡ (s, done (record { scheduled_for = t; next_run_at = n } ∷ []))
  unfolding prepare_all prepare next_fire_for
  prepare_one e t n s h = rw h refl

  planned-sent :
      (e live : ScheduleEntry) (handoff : Bool) (t : Instant) (n : Option Instant) (s : TickEngine)
      → compute_next_fire w.calendars w.clock e.kind e (some t) ≡ computed n
      → w.is_stopped (turn_starts 0) ≡ false
      → w.replaced (slot_read 0) ≡ false
      → get (w.meanwhile (slot_read 0) s).cache.entries e.id ≡ some live
      → live.id ≡ e.id
      → live.is_enabled ≡ true
      → is_open w 0 live.project_id ≡ true
      → (on_decision w e handoff
          (done (record { slots = t ∷ []; advance_anchor = t; discarded = 0 }))
          s).sent
        ≡ record { scheduled_for = t; next_run_at = n } ∷ []
  unfolding run_plan drain_plan
  planned-sent e live handoff t n s next_at run same row id on gates =
      let p : PreparedFire = record { scheduled_for = t; next_run_at = n } in
      let r = drain w (p ∷ []) e.control_token 0 (t ∷ []) (start_of w e s) in
      rw (prepare_one e t n s next_at) (
        conclude-sent w e.control_token (prepared_for w (p ∷ []) t) handoff 0 r.0 r.1
        ∙ single-sent p e.control_token (start_of w e s) _
            (first_check e live s run same row id on gates))

  -- A due slot that is judged to be on time, whose successor can be computed, is sent with that
  -- successor and is the only slot sent, when the gates are open at both places where they are read
  -- and the cache still holds the entry's row, enabled.
  pub on_time_sent :
      (now : Instant) (e live : ScheduleEntry) (t : Instant) (n : Option Instant) (s : TickEngine)
      → e.next_fire_at ≡ some t
      → w.is_stopped entered ≡ false
      → w.watch_healthy entered ≡ true
      → w.is_leader entered e.project_id ≡ true
      → (judge now e t s).1 ≡ true
      → compute_next_fire w.calendars w.clock e.kind e (some t) ≡ computed n
      → w.is_stopped (turn_starts 0) ≡ false
      → w.replaced (slot_read 0) ≡ false
      → get (w.meanwhile (slot_read 0) (judge now e t s).0).cache.entries e.id ≡ some live
      → live.id ≡ e.id
      → live.is_enabled ≡ true
      → is_open w 0 live.project_id ≡ true
      → (fire_with_catch_up w now e s).sent ≡ record { scheduled_for = t; next_run_at = n } ∷ []
  unfolding fire_with_catch_up fire_slot
  on_time_sent now e live t n s due run healthy leading on_time next_at run0 same row id on gates =
      let p : PreparedFire = record { scheduled_for = t; next_run_at = n } in
      rw (run, healthy, leading)
        (subst (λ o. (fire_next w now e o s).sent ≡ p ∷ []) (sym due)
          (rw (on_time, decide_on_time w.calendars e t now)
            (planned-sent e live (was_follower_handoff e t s) t n (judge now e t s).0 next_at run0
              same row id on gates)))

marked_eq_refl : (m : Marked) → marked_eq m m ≡ true
unfolding marked_eq
marked_eq_refl m = rw (==_refl m.slot, (cadence_eq_iff m.cadence m.cadence).1 refl) refl

-- What a judgement on time leaves behind.
judge-entitled :
    (now : Instant) (e : ScheduleEntry) (t : Instant) (s : TickEngine)
    → within now t (effective_grace e t s) ≡ true
    → get (judge now e t s).0.slot_entitled e.id
      ≡ some (record {
        marked = marked_of e t;
        granted_at = (prior_grant (get s.slot_entitled e.id) (marked_of e t) now).0;
      })
unfolding judge
judge-entitled now e t s h = rw (h, get-put_same s.slot_entitled e.id) refl

judge_entitled :
    (later : Instant) (e : ScheduleEntry) (t g : Instant) (s : TickEngine)
    → get s.slot_entitled e.id ≡ some (record { marked = marked_of e t; granted_at = g })
    → (judge later e t s).1
      ≡ (within later t (effective_grace e t s) || within later g entitlement_max_age)
unfolding judge prior_grant
judge_entitled later e t g s h = elim (Bool-cases (within later t (effective_grace e t s))) [
  | inl on ↦ rw on refl
  | inr off ↦ rw (off, h, marked_eq_refl (marked_of e t)) refl
]

-- A slot that was judged within its grace, and whose entitlement is still as that judgement left
-- it, is judged on time at another instant exactly when it is then within its grace or the
-- entitlement, counted from its first grant, is at most its maximal age old.
pub judge_later :
    (now later : Instant) (e : ScheduleEntry) (t : Instant) (s s' : TickEngine)
    → within now t (effective_grace e t s) ≡ true
    → get s'.slot_entitled e.id ≡ get (judge now e t s).0.slot_entitled e.id
    → (judge later e t s').1 ≡ (
        within later t (effective_grace e t s')
        || within later
            (prior_grant (get s.slot_entitled e.id) (marked_of e t) now).0
            entitlement_max_age)
judge_later now later e t s s' on_time kept =
    judge_entitled later e t _ s' (kept ∙ judge-entitled now e t s on_time)
