-- ===== src/Engine/Fire.antt =====
-- tick/engine.py: `_fire_with_catch_up`, the gates, the plan, its drain and the advance that follows.
use z4j_scheduler.Prelude.{
  ℕ, Bool, true, false, not, Option, none, some, is_none, List, [], ◌∷◌, leb, ◌==◌, ◌&&◌, ◌||◌,
  if◌then◌else◌, take,
}
use z4j_scheduler.Dict.{put}
use z4j_scheduler.Entry.{Uuid, Instant, ScheduleEntry}
use z4j_scheduler.Cache.State.{Cache, Result, ok, raise}
use z4j_scheduler.Cache.Cursor.{apply_cursor_transition, time_eq}
use z4j_scheduler.Quarantine.{Answer, answered, failed}
use z4j_scheduler.Dispatch.{PreparedFire}
use z4j_scheduler.Tick.Cron.{Computed, computed, expression_error, broke}
use z4j_scheduler.Tick.Cadence.{Calendars, compute_next_fire}
use z4j_scheduler.Engine.{
  TickEngine, Outcome, done, threw, max_dispatch_per_tick, CursorTransitionResult,
  CursorTransitionDisposition, applied, idempotent,
}
use z4j_scheduler.Engine.Marks.{park, judge, was_follower_handoff, consume_follower_handoff}
use z4j_scheduler.Engine.Backlog.{Decision, decide}
use z4j_scheduler.Engine.Drain.{
  entered, cursor_sent, World, Left, finished, aborted, definition_changed, ended, Drain, resume_at,
  apply_prepared_advance, prepared_for, drain,
}

pub record Fired : Type 0 where
  pub engine : TickEngine
  pub sent : List PreparedFire
  -- The slots that the method reports as dropped by the policy.
  pub reported : ℕ
  pub outcome : Outcome Bool

abbrev quiet : Outcome Bool → TickEngine → Fired
quiet o s = record { engine = s; sent = []; reported = 0; outcome = o }

-- `_next_fire_for` with its handlers: an expression that does not parse disables the schedule later.
abbrev pub next_of :
    ScheduleEntry → Computed (Option Instant) → TickEngine → TickEngine × Outcome (Option Instant)
next_of e (computed t) s = (s, done t)
next_of e expression_error s =
    (record s { pending_disables = put s.pending_disables e.id e }, done none)
next_of e broke s = (s, threw)

unfoldable pub next_fire_for :
    Calendars
    → Instant
    → ScheduleEntry
    → Option Instant
    → TickEngine
    → TickEngine × Outcome (Option Instant)
next_fire_for c clock e last s = next_of e (compute_next_fire c clock e.kind e last) s

abbrev pub prepared_of :
    Instant → TickEngine × Outcome (Option Instant) → TickEngine × Outcome PreparedFire
prepared_of t (s, threw) = (s, threw)
prepared_of t (s, done n) = (s, done (record { scheduled_for = t; next_run_at = n }))

unfoldable pub prepare :
    Calendars → Instant → ScheduleEntry → Instant → TickEngine → TickEngine × Outcome PreparedFire
prepare c clock e t s = prepared_of t (next_fire_for c clock e (some t) s)

abbrev pub prepare_then :
    TickEngine × Outcome PreparedFire
    → (TickEngine → TickEngine × Outcome (List PreparedFire))
    → TickEngine × Outcome (List PreparedFire)
prepare_then (s, threw) rest = (s, threw)
prepare_then (s, done p) rest =
    let (s', o) = rest s in (s', elim o [ threw ↦ threw | done ps ↦ done (p ∷ ps) ])

-- The successors of the slots of the bounded plan.
unfoldable pub prepare_all :
    Calendars
    → Instant
    → ScheduleEntry
    → List Instant
    → TickEngine
    → TickEngine × Outcome (List PreparedFire)
prepare_all c clock e [] s = (s, done [])
prepare_all c clock e (t ∷ ts) s =
    prepare_then (prepare c clock e t s) (λ s. prepare_all c clock e ts s)

-- disposition in {"applied", "idempotent"}
abbrev pub is_committed : CursorTransitionDisposition → Bool
is_committed applied = true
is_committed idempotent = true
is_committed CursorTransitionDisposition.slot_resolved_refresh = false
is_committed CursorTransitionDisposition.stale_control_refresh = false
is_committed CursorTransitionDisposition.cadence_semantics_mismatch = false

-- What a refused advance comes to.
abbrev pub refusal : CursorTransitionDisposition → Outcome Bool
refusal CursorTransitionDisposition.cadence_semantics_mismatch = threw
refusal applied = done false
refusal idempotent = done false
refusal CursorTransitionDisposition.slot_resolved_refresh = done false
refusal CursorTransitionDisposition.stale_control_refresh = done false

-- The Brain committed another cursor than the prepared one.
unfoldable pub differs : PreparedFire → CursorTransitionResult → Bool
differs p r =
    not (time_eq r.committed_last_run_at (some p.scheduled_for))
    || not (time_eq r.committed_next_run_at p.next_run_at)

-- The control moved, or the revision did not.
unfoldable pub is_outdated : Uuid → ℕ → CursorTransitionResult → Bool
is_outdated token revision r = not (r.live_control_token == token) || leb r.live_revision revision

-- The checks of the Brain's answer to an advance, in their order.
pub data CursorVerdict : Type 0 where
  refused other_cursor outdated committed : CursorVerdict

unfoldable pub cursor_verdict :
    Uuid → PreparedFire → CursorTransitionResult → ScheduleEntry → CursorVerdict
cursor_verdict token p r e =
    if not (is_committed r.disposition)
    then refused
    else if differs p r
    then other_cursor
    else if is_outdated token e.schedule_revision r
    then outdated
    else committed

module _ (w : World) where
  abbrev pub applied_cursor : Uuid → Bool → ℕ → TickEngine → Cache × Result Bool → Fired
  applied_cursor k handoff discarded s (c, raise x) = quiet threw (record s { cache = c })
  applied_cursor k handoff discarded s (c, ok b) = record {
    engine = consume_follower_handoff k handoff (record s { cache = c });
    sent = [];
    reported = discarded;
    outcome = done true;
  }

  unfoldable pub on_verdict :
      Uuid → Bool → ℕ → CursorTransitionResult → Drain → CursorVerdict → Fired
  on_verdict token handoff discarded r d refused = quiet (refusal r.disposition) d.engine
  on_verdict token handoff discarded r d other_cursor = quiet threw d.engine
  on_verdict token handoff discarded r d outdated = quiet (done false) d.engine
  on_verdict token handoff discarded r d committed =
      applied_cursor d.entry.id handoff discarded d.engine (
        apply_cursor_transition d.entry.id
          (record {
            expected_control_token = token;
            expected_revision = d.entry.schedule_revision;
            expected_last_run_at = d.entry.last_fire_at;
            expected_next_run_at = d.entry.next_fire_at;
            committed_revision = r.live_revision;
            committed_last_run_at = r.live_last_run_at;
            committed_next_run_at = r.live_next_run_at;
          })
          d.engine.cache)

  -- The zero-work transition of a schedule under durable control, after the dispatcher's answer.
  unfoldable pub on_cursor :
      Uuid → PreparedFire → Bool → ℕ → Answer CursorTransitionResult → Drain → Fired
  on_cursor token p handoff discarded failed d = quiet (done false) d.engine
  on_cursor token p handoff discarded (answered r) d =
      on_verdict token handoff discarded r d (cursor_verdict token p r d.entry)

  abbrev pub consumed : Bool → Drain → TickEngine
  consumed handoff d = consume_follower_handoff d.entry.id handoff d.engine

  abbrev pub advanced : Option Uuid → Option PreparedFire → Drain → Drain
  advanced (some token) p d = d
  advanced none none d = d
  advanced none (some p) d = apply_prepared_advance w p d

  -- The end of the method, from how the loop was left.
  unfoldable pub conclude : Option Uuid → Option PreparedFire → Bool → ℕ → Left × Drain → Fired
  conclude token anchor handoff discarded (ended o, d) = record {
    engine = d.engine;
    sent = d.sent;
    reported = 0;
    outcome = o;
  }
  conclude token anchor handoff discarded (definition_changed, d) = record {
    engine = d.engine;
    sent = d.sent;
    reported = 0;
    outcome = done true;
  }
  conclude token anchor handoff discarded (aborted, d) =
      if is_none d.last_dispatched
      then record { engine = d.engine; sent = d.sent; reported = 0; outcome = done true }
      else record {
        engine = consumed handoff (advanced token d.last_dispatched d);
        sent = d.sent;
        reported = 0;
        outcome = done true;
      }
  conclude token anchor handoff discarded (finished, d) =
      if is_none token && is_none anchor
      then record { engine = d.engine; sent = d.sent; reported = 0; outcome = threw }
      else record {
        engine = consumed handoff (advanced token anchor d);
        sent = d.sent;
        reported = discarded;
        outcome = done true;
      }

  abbrev pub start_of : ScheduleEntry → TickEngine → Drain
  start_of e s = record { engine = s; entry = e; aliased = true; sent = []; last_dispatched = none }

  -- A plan with slots is drained.
  unfoldable pub drain_plan :
      ScheduleEntry → Bool → Decision → List PreparedFire → TickEngine → Fired
  drain_plan e handoff d prepared s =
      conclude e.control_token (prepared_for w prepared d.advance_anchor) handoff d.discarded
        (drain w prepared e.control_token 0 d.slots (start_of e s))

  abbrev pub on_prepared :
      ScheduleEntry → Bool → Decision → TickEngine × Outcome (List PreparedFire) → Fired
  on_prepared e handoff d (s, threw) = quiet threw s
  on_prepared e handoff d (s, done prepared) = drain_plan e handoff d prepared s

  -- An empty plan: a schedule under durable control asks the Brain to move its cursor.
  abbrev pub skip_with :
      Option Uuid → ScheduleEntry → Bool → Decision → PreparedFire → TickEngine → Fired
  skip_with (some token) e handoff d p s =
      on_cursor token p handoff d.discarded (w.advance_cursor e p)
        (resume_at w cursor_sent (start_of e s))
  skip_with none e handoff d p s =
      conclude none (some p) handoff d.discarded (finished, start_of e s)

  abbrev pub on_skip : ScheduleEntry → Bool → Decision → TickEngine × Outcome PreparedFire → Fired
  on_skip e handoff d (s, threw) = quiet threw s
  on_skip e handoff d (s, done p) = skip_with e.control_token e handoff d p s

  unfoldable pub run_plan : ScheduleEntry → Bool → Decision → List Instant → TickEngine → Fired
  run_plan e handoff d [] s = on_skip e handoff d (prepare w.calendars w.clock e d.advance_anchor s)
  run_plan e handoff d (t ∷ ts) s =
      on_prepared e handoff d
        (prepare_all w.calendars w.clock e (take max_dispatch_per_tick d.slots) s)

  abbrev pub on_decision : ScheduleEntry → Bool → Outcome Decision → TickEngine → Fired
  on_decision e handoff threw s = quiet threw s
  on_decision e handoff (done d) s = run_plan e handoff d d.slots s

  unfoldable pub fire_slot : Instant → ScheduleEntry → Instant → TickEngine → Fired
  fire_slot now e t s =
      let (s', on_time) = judge now e t s in
      on_decision e (was_follower_handoff e t s) (decide w.calendars on_time e t now) s'

  abbrev pub fire_next : Instant → ScheduleEntry → Option Instant → TickEngine → Fired
  fire_next now e none s = quiet (done true) s
  fire_next now e (some t) s = fire_slot now e t s

  unfoldable pub fire_with_catch_up : Instant → ScheduleEntry → TickEngine → Fired
  fire_with_catch_up now e s =
      if w.is_stopped entered || not (w.watch_healthy entered)
      then quiet (done true) s
      else if not (w.is_leader entered e.project_id)
      then quiet (done true) (park e s)
      else fire_next now e e.next_fire_at s
