-- ===== src/Engine/Drain.antt =====
-- tick/engine.py: the drain of a plan, the loop of `_fire_with_catch_up` that dispatches one slot a turn.
-- What the other tasks do while the loop awaits is a parameter, and so is whether they replaced the row's
-- object: the engine's entry is the cache's own object until then, and sees what the cache writes to it.
use z4j_scheduler.Prelude.{
  ℕ, ◌+◌, Bool, true, false, not, Option, none, some, is_some, is_none, List, [], ◌∷◌, ◌++◌, leb,
  ltb, ◌==◌, ◌&&◌, ◌||◌, if◌then◌else◌,
}
use z4j_scheduler.Dict.{get, discard}
use z4j_scheduler.Entry.{Uuid, Instant, ScheduleEntry, schedule_definition_changed}
use z4j_scheduler.Cache.State.{Cache, Result, ok, raise}
use z4j_scheduler.Cache.Cursor.{Transition, apply_cursor_transition, time_eq}
use z4j_scheduler.Cache.Latches.{update_fire_state, token_is}
use z4j_scheduler.Quarantine.{Answer, answered, failed}
use z4j_scheduler.Dispatch.{
  FireResult, FireDisposition, accepted, retryable_or_ambiguous, terminal_quarantined,
  slot_resolved_refresh, stale_control_refresh, legacy_upgrade_required, cadence_semantics_mismatch,
  PreparedFire,
}
use z4j_scheduler.Tick.Cadence.{Calendars}
use z4j_scheduler.Engine.{
  TickEngine, Outcome, done, threw, max_dispatch_per_tick, CursorTransitionResult,
}
use z4j_scheduler.Engine.Stops.{stop_until_brain_supersedes, handle_cadence_mismatch}

-- The points at which the loop reads its gates or resumes after an await. A slot is told by its turn.
pub data Moment : Type 0 where
  entered cursor_sent : Moment
  turn_starts slot_read slot_sent renegotiated : ℕ → Moment

pub record World : Type 0 where
  pub calendars : Calendars
  pub clock : Instant
  pub is_stopped : Moment → Bool
  pub watch_healthy : Moment → Bool
  pub is_leader : Moment → Uuid → Bool
  pub meanwhile : Moment → TickEngine → TickEngine
  pub replaced : Moment → Bool
  pub dispatch : ScheduleEntry → PreparedFire → Answer (Option FireResult)
  pub advance_cursor : ScheduleEntry → PreparedFire → Answer CursorTransitionResult
  pub renegotiate : Option (Answer Bool)

-- How the loop was left: at its end, by a break, or by a return or an exception of the method.
pub data Left : Type 0 where
  finished aborted definition_changed : Left
  ended : Outcome Bool → Left

pub record Drain : Type 0 where
  pub engine : TickEngine
  pub entry : ScheduleEntry
  -- Whether the entry is the cache's object.
  pub aliased : Bool
  -- The calls of the dispatcher in order, and the last that was accepted.
  pub sent : List PreparedFire
  pub last_dispatched : Option PreparedFire

pub data Turned : Type 0 where
  next : Drain → Turned
  leave : Left → Drain → Turned

-- The entry after an await of the loop.
abbrev held : Bool → Option ScheduleEntry → ScheduleEntry → ScheduleEntry
held false live e = e
held true none e = e
held true (some l) e = l

abbrev pub set_engine : TickEngine → Drain → Drain
set_engine s d = record d {
  engine = s;
  entry = held d.aliased (get s.cache.entries d.entry.id) d.entry;
}

module _ (w : World) where
  -- The loop resumes at a moment.
  abbrev pub resume_at : Moment → Drain → Drain
  resume_at m d =
      set_engine (w.meanwhile m d.engine) (record d { aliased = d.aliased && not (w.replaced m) })

  -- The last gate before a slot is sent.
  abbrev pub is_open : ℕ → Uuid → Bool
  is_open n project =
      not (w.is_stopped (slot_read n))
      && w.watch_healthy (slot_read n)
      && w.is_leader (slot_read n) project

  abbrev pub on_live : ℕ → Option ScheduleEntry → Drain → Turned
  on_live n none d = leave aborted d
  on_live n (some live) d =
      if not live.is_enabled
      then leave aborted d
      else if schedule_definition_changed d.entry live
      then leave definition_changed d
      else if not (is_open n d.entry.project_id)
      then leave aborted d
      else next d

  -- The checks of turn `n`, which is the count of the slots that were dispatched before.
  unfoldable pub check_slot : ℕ → Drain → Turned
  check_slot n d =
      if w.is_stopped (turn_starts n)
      then leave aborted d
      else if leb max_dispatch_per_tick n
      then leave aborted d
      else (let d' = resume_at (slot_read n) d in
          on_live n (get d'.engine.cache.entries d'.entry.id) d')

  -- `_apply_prepared_advance`
  unfoldable pub apply_prepared_advance : PreparedFire → Drain → Drain
  apply_prepared_advance p d =
      set_engine
        (record d.engine {
          cache =
              (update_fire_state d.entry.id (some (some p.scheduled_for)) (some p.next_run_at) none
                (some d.entry) d.engine.cache).0;
        })
        d

  abbrev pub advance_prior : Option PreparedFire → Bool → Drain → Drain
  advance_prior (some p) false d = apply_prepared_advance p d
  advance_prior none current d = d
  advance_prior (some p) true d = d

  abbrev pub stop_at : Uuid → ℕ → Drain → Drain
  stop_at token revision d =
      set_engine (stop_until_brain_supersedes d.entry.id token revision d.engine) d

  -- What the loop read of the entry before it sent the slot.
  abbrev pub expectation : ScheduleEntry → Uuid → FireResult → Transition
  expectation e token r = record {
    expected_control_token = token;
    expected_revision = e.schedule_revision;
    expected_last_run_at = e.last_fire_at;
    expected_next_run_at = e.next_fire_at;
    committed_revision = r.live_revision;
    committed_last_run_at = r.live_last_run_at;
    committed_next_run_at = r.live_next_run_at;
  }

  -- The evidence of an accepted fire is malformed.
  unfoldable pub is_malformed : ScheduleEntry → PreparedFire → FireResult → Bool
  is_malformed e p r =
      leb r.acceptance_revision e.schedule_revision
      || not (time_eq r.accepted_last_run_at (some p.scheduled_for))
      || not (time_eq r.accepted_next_run_at p.next_run_at)
      || is_none r.live_control_token
      || ltb r.live_revision r.acceptance_revision
      || leb r.live_revision e.schedule_revision
      || is_none r.live_last_run_at

  -- One revision with two cursors.
  unfoldable pub conflicts : FireResult → Bool
  conflicts r =
      r.live_revision == r.acceptance_revision
      && not (
          time_eq r.live_last_run_at r.accepted_last_run_at
          && time_eq r.live_next_run_at r.accepted_next_run_at)

  abbrev pub after_transition : PreparedFire → FireResult → Drain → Cache × Result Bool → Turned
  after_transition p r d (c, raise x) =
      leave (ended threw) (set_engine (record d.engine { cache = c }) d)
  after_transition p r d (c, ok applied) =
      let d' = set_engine (record d.engine { cache = c }) d in
      if not applied
      then leave (ended (done true)) d'
      else if not (r.live_revision == r.acceptance_revision)
      then leave (ended (done true)) d'
      else next (record d' {
        engine = record d'.engine {
          cadence_renegotiated = discard d'.engine.cadence_renegotiated d'.entry.id;
        };
        last_dispatched = some p;
      })

  -- `e` is the entry as it was when the slot was sent.
  unfoldable pub on_accepted : ScheduleEntry → Uuid → PreparedFire → FireResult → Drain → Turned
  on_accepted e token p r d =
      if is_malformed e p r
      then leave (ended (done false)) d
      else if conflicts r
      then leave (ended (done false)) d
      else if not (token_is r.live_control_token token)
      then leave (ended (done true)) (stop_at token r.live_revision d)
      else after_transition p r d
          (apply_cursor_transition d.entry.id (expectation e token r) d.engine.cache)

  unfoldable pub on_disposition :
      ℕ → ScheduleEntry → Uuid → PreparedFire → FireResult → Option FireDisposition → Drain → Turned
  on_disposition n e token p r none d = leave (ended (done false)) d
  on_disposition n e token p r (some cadence_semantics_mismatch) d = leave (ended (done true)) (
      set_engine
        (handle_cadence_mismatch w.renegotiate (w.meanwhile (renegotiated n)) d.entry (some token)
          d.engine)
        d)
  on_disposition n e token p r (some terminal_quarantined) d =
      leave (ended (done true)) (stop_at token r.live_revision d)
  on_disposition n e token p r (some slot_resolved_refresh) d =
      leave (ended (done true)) (stop_at token r.live_revision d)
  on_disposition n e token p r (some stale_control_refresh) d =
      leave (ended (done true)) (stop_at token r.live_revision d)
  on_disposition n e token p r (some legacy_upgrade_required) d =
      leave (ended (done true)) (stop_at token r.live_revision d)
  on_disposition n e token p r (some retryable_or_ambiguous) d = leave (ended (done false)) d
  on_disposition n e token p r (some accepted) d = on_accepted e token p r d

  -- What follows the dispatcher's answer. A legacy schedule counts any return as accepted.
  unfoldable pub on_answer :
      ℕ → ScheduleEntry → Option Uuid → PreparedFire → Answer (Option FireResult) → Drain → Turned
  on_answer n e none p failed d =
      leave (ended (done false)) (advance_prior d.last_dispatched false d)
  on_answer n e (some token) p failed d = leave (ended (done false)) d
  on_answer n e none p (answered r) d = next (record d { last_dispatched = some p })
  on_answer n e (some token) p (answered none) d = leave (ended (done false)) d
  on_answer n e (some token) p (answered (some r)) d = on_disposition n e token p r r.disposition d

  -- The slot is sent, and the loop resumes with the answer.
  unfoldable pub send_slot : ℕ → Option Uuid → PreparedFire → Drain → Turned
  send_slot n token p d =
      on_answer n d.entry token p (w.dispatch d.entry p)
        (resume_at (slot_sent n) (record d { sent = d.sent ++ (p ∷ []) }))

  abbrev pub after_check : ℕ → Option Uuid → Option PreparedFire → Turned → Turned
  after_check n token p (leave l d) = leave l d
  after_check n token none (next d) =
      leave (ended (done false)) (advance_prior d.last_dispatched (is_some token) d)
  after_check n token (some p) (next d) = send_slot n token p d

  abbrev pub after_turn : Turned → (Drain → Left × Drain) → Left × Drain
  after_turn (leave l d) rest = (l, d)
  after_turn (next d) rest = rest d

  -- `prepared_by_slot[moment]`; a missing key raises inside the `try`.
  unfoldable pub prepared_for : List PreparedFire → Instant → Option PreparedFire
  prepared_for [] t = none
  prepared_for (p ∷ ps) t =
      let rest = prepared_for ps t in if p.scheduled_for == t then some p else rest

  -- The loop from turn `n`, with the control token that the entry had when the method began.
  unfoldable pub drain : List PreparedFire → Option Uuid → ℕ → List Instant → Drain → Left × Drain
  drain prepared token n [] d = (finished, d)
  drain prepared token n (t ∷ plan) d =
      after_turn (after_check n token (prepared_for prepared t) (check_slot n d))
        (λ d. drain prepared token (n + 1) plan d)
