-- ===== src/Engine/Sent.antt =====
-- tick/engine.py: what a call of `_fire_with_catch_up` has sent, and when it sends.
use z4j_scheduler.Prelude.{
  ℕ, ◌+◌, ◌≤◌, ◌<◌, ◌≡◌, refl, sym, ◌∙◌, subst, ◌⊎◌, Bool, true, false, Option, none, some, is_none,
  List, [], ◌∷◌, length, ◌&&◌, Bool-cases, inl, inr, arith, take,
}
use z4j_scheduler.Entry.{Uuid, Instant, ScheduleEntry}
use z4j_scheduler.Cache.State.{Cache, Result, ok, raise}
use z4j_scheduler.Quarantine.{Answer, answered, failed}
use z4j_scheduler.Dispatch.{PreparedFire}
use z4j_scheduler.Engine.{
  TickEngine, Outcome, done, threw, max_dispatch_per_tick, CursorTransitionResult,
}
use z4j_scheduler.Engine.Marks.{judge, was_follower_handoff}
use z4j_scheduler.Engine.Backlog.{Decision, decide}
use z4j_scheduler.Engine.Drain.{
  entered, World, Left, finished, aborted, definition_changed, ended, Drain, drain, prepared_for,
}
use z4j_scheduler.Engine.Fire.{
  prepare_all, CursorVerdict, refused, other_cursor, outdated, committed, cursor_verdict,
  on_verdict, applied_cursor, on_cursor, conclude, start_of, drain_plan, on_prepared, skip_with,
  on_skip, run_plan, on_decision, fire_slot, fire_next, fire_with_catch_up,
}
use z4j_scheduler.Engine.Gates.{SentFrom, nothing_sent, last_sent, one_sent, drain-Sends}

module _ (w : World) where
  -- The count of what was sent from a turn on stays within the bound of a tick.
  length-SentFrom :
      (prepared : List PreparedFire) (token : Option Uuid) (n : ℕ) (d : Drain) (plan : List Instant)
      (ps : List PreparedFire)
      → SentFrom w prepared token n d plan ps
      → n ≤ max_dispatch_per_tick
      → n + length ps ≤ max_dispatch_per_tick
  length-SentFrom prepared token n d plan [] nothing_sent h = omega arith
  length-SentFrom prepared token n d [] (p ∷ ps) h l = elim h [ ]
  length-SentFrom prepared token n d (t ∷ plan) (p ∷ []) (last_sent o) h =
      omega (arith, o.may_send.few)
  length-SentFrom prepared token n d (t ∷ plan) (p ∷ ps) (one_sent {e = e} o x rest) h = omega (
    arith,
    o.may_send.few,
    length-SentFrom prepared token (n + 1) e plan ps rest
        (step n max_dispatch_per_tick o.may_send.few),
  )
    where
      step : (n m : ℕ) → n < m → n + 1 ≤ m
      step n m h = omega arith

  -- What a plan sends: its transitions were prepared, and each of its turns allowed it.
  pub record Planned (e : ScheduleEntry) (s : TickEngine) (o : Outcome Decision)
      (sent : List PreparedFire) : Type 0 where
    pub decision : Decision
    pub decided : o ≡ done decision
    pub ready : TickEngine
    pub prepared : List PreparedFire
    pub prepares :
        prepare_all w.calendars w.clock e (take max_dispatch_per_tick decision.slots) s
        ≡ (ready, done prepared)
    pub allowed : SentFrom w prepared e.control_token 0 (start_of w e ready) decision.slots sent

  -- A call that sent something: its gates were open, and its plan and each of its turns allowed it.
  pub record Cleared (now : Instant) (e : ScheduleEntry) (s : TickEngine) (sent : List PreparedFire)
      : Type 0 where
    pub slot : Instant
    pub due : e.next_fire_at ≡ some slot
    pub running : w.is_stopped entered ≡ false
    pub healthy : w.watch_healthy entered ≡ true
    pub leading : w.is_leader entered e.project_id ≡ true
    pub planned :
        Planned e (judge now e slot s).0 (decide w.calendars (judge now e slot s).1 e slot now) sent
    pub few : length sent ≤ max_dispatch_per_tick

  pub conclude-sent :
      (token : Option Uuid) (anchor : Option PreparedFire) (handoff : Bool) (discarded : ℕ)
      (l : Left) (d : Drain)
      → (conclude w token anchor handoff discarded (l, d)).sent ≡ d.sent
  unfolding conclude
  conclude-sent token anchor handoff discarded (ended o) d = refl
  conclude-sent token anchor handoff discarded definition_changed d = refl
  conclude-sent token anchor handoff discarded aborted d =
      elim (Bool-cases (is_none d.last_dispatched)) [ inl h ↦ rw h refl | inr h ↦ rw h refl ]
  conclude-sent token anchor handoff discarded finished d =
      elim (Bool-cases (is_none token && is_none anchor)) [ inl h ↦ rw h refl | inr h ↦ rw h refl ]

  applied_cursor-sent :
      (k : Uuid) (handoff : Bool) (discarded : ℕ) (s : TickEngine) (x : Cache × Result Bool)
      → (applied_cursor w k handoff discarded s x).sent ≡ []
  applied_cursor-sent k handoff discarded s (c, raise x) = refl
  applied_cursor-sent k handoff discarded s (c, ok b) = refl

  on_verdict-sent :
      (token : Uuid) (handoff : Bool) (discarded : ℕ) (r : CursorTransitionResult) (d : Drain)
      (v : CursorVerdict)
      → (on_verdict w token handoff discarded r d v).sent ≡ []
  unfolding on_verdict
  on_verdict-sent token handoff discarded r d refused = refl
  on_verdict-sent token handoff discarded r d other_cursor = refl
  on_verdict-sent token handoff discarded r d outdated = refl
  on_verdict-sent token handoff discarded r d committed =
      applied_cursor-sent d.entry.id handoff discarded d.engine _

  on_cursor-sent :
      (token : Uuid) (p : PreparedFire) (handoff : Bool) (discarded : ℕ)
      (a : Answer CursorTransitionResult) (d : Drain)
      → (on_cursor w token p handoff discarded a d).sent ≡ []
  unfolding on_cursor
  on_cursor-sent token p handoff discarded failed d = refl
  on_cursor-sent token p handoff discarded (answered r) d =
      on_verdict-sent token handoff discarded r d (cursor_verdict token p r d.entry)

  skip_with-sent :
      (token : Option Uuid) (e : ScheduleEntry) (handoff : Bool) (d : Decision) (p : PreparedFire)
      (s : TickEngine)
      → (skip_with w token e handoff d p s).sent ≡ []
  skip_with-sent none e handoff d p s =
      conclude-sent none (some p) handoff d.discarded finished (start_of w e s)
  skip_with-sent (some token) e handoff d p s =
      on_cursor-sent token p handoff d.discarded (w.advance_cursor e p) _

  on_skip-sent :
      (e : ScheduleEntry) (handoff : Bool) (d : Decision) (x : TickEngine × Outcome PreparedFire)
      → (on_skip w e handoff d x).sent ≡ []
  on_skip-sent e handoff d (s, threw) = refl
  on_skip-sent e handoff d (s, done p) = skip_with-sent e.control_token e handoff d p s

  -- Either nothing is sent, or a plan allowed it.
  abbrev SendsPlanned : ScheduleEntry → TickEngine → Outcome Decision → List PreparedFire → Type 0
  SendsPlanned e s o sent = (sent ≡ []) ⊎ Planned e s o sent

  on_prepared-Planned :
      (e : ScheduleEntry) (handoff : Bool) (d : Decision) (s : TickEngine)
      (x : TickEngine × Outcome (List PreparedFire))
      → prepare_all w.calendars w.clock e (take max_dispatch_per_tick d.slots) s ≡ x
      → SendsPlanned e s (done d) (on_prepared w e handoff d x).sent
  unfolding drain_plan
  on_prepared-Planned e handoff d s (r, threw) h = inl refl
  on_prepared-Planned e handoff d s (r, done prepared) h =
      let x = drain w prepared e.control_token 0 d.slots (start_of w e r) in
      let q = drain-Sends w prepared e.control_token 0 d.slots (start_of w e r) in
      inr (record {
        decision = d;
        decided = refl;
        ready = r;
        prepared = prepared;
        prepares = h;
        allowed =
            subst (SentFrom w prepared e.control_token 0 (start_of w e r) d.slots)
              (sym (
                conclude-sent e.control_token (prepared_for w prepared d.advance_anchor) handoff
                  d.discarded x.0 x.1
                ∙ q.appended))
              q.allowed;
      })

  run_plan-Planned :
      (e : ScheduleEntry) (handoff : Bool) (d : Decision) (plan : List Instant) (s : TickEngine)
      → SendsPlanned e s (done d) (run_plan w e handoff d plan s).sent
  unfolding run_plan
  run_plan-Planned e handoff d [] s = inl (on_skip-sent e handoff d _)
  run_plan-Planned e handoff d (t ∷ ts) s = on_prepared-Planned e handoff d s _ refl

  on_decision-Planned :
      (e : ScheduleEntry) (handoff : Bool) (o : Outcome Decision) (s : TickEngine)
      → SendsPlanned e s o (on_decision w e handoff o s).sent
  on_decision-Planned e handoff threw s = inl refl
  on_decision-Planned e handoff (done d) s = run_plan-Planned e handoff d d.slots s

  fire_next-Cleared :
      (now : Instant) (e : ScheduleEntry) (o : Option Instant) (s : TickEngine)
      → e.next_fire_at ≡ o
      → w.is_stopped entered ≡ false
      → w.watch_healthy entered ≡ true
      → w.is_leader entered e.project_id ≡ true
      → ((fire_next w now e o s).sent ≡ []) ⊎ Cleared now e s (fire_next w now e o s).sent
  unfolding fire_slot
  fire_next-Cleared now e none s due running healthy leading = inl refl
  fire_next-Cleared now e (some t) s due running healthy leading =
      elim (on_decision-Planned e (was_follower_handoff e t s)
        (decide w.calendars (judge now e t s).1 e t now) (judge now e t s).0) [
          | inl h ↦ inl h
          | inr p ↦ inr (record {
            slot = t;
            due = due;
            running = running;
            healthy = healthy;
            leading = leading;
            planned = p;
            few = omega (
              arith,
              length-SentFrom p.prepared _ 0 _ p.decision.slots _ p.allowed (omega arith),
            );
          })
        ]

  -- A call of the engine for a due entry sends no slot, or was entered while the process ran, the
  -- watch was healthy and this instance led the project, and sends at most 256 of the slots of the
  -- entry's plan, in order and one a turn, each with the successor that was prepared before the
  -- first was sent, in a turn in which the process ran, the row that the cache then held was
  -- enabled and its definition was that of the entry, the watch was healthy and the project was
  -- led, and the next only after an answer that lets the loop go on, whatever the other tasks, the
  -- dispatcher and the Brain do.
  pub fire_with_catch_up-Cleared :
      (now : Instant) (e : ScheduleEntry) (s : TickEngine)
      → ((fire_with_catch_up w now e s).sent ≡ [])
        ⊎ Cleared now e s (fire_with_catch_up w now e s).sent
  unfolding fire_with_catch_up
  fire_with_catch_up-Cleared now e s = elim (Bool-cases (w.is_stopped entered)) [
    | inl stopped ↦ rw stopped (inl refl)
    | inr running ↦ elim (Bool-cases (w.watch_healthy entered)) [
      | inr down ↦ rw (running, down) (inl refl)
      | inl healthy ↦ elim (Bool-cases (w.is_leader entered e.project_id)) [
        | inr follower ↦ rw (running, healthy, follower) (inl refl)
        | inl leading ↦
            rw (running, healthy, leading)
              (fire_next-Cleared now e e.next_fire_at s refl running healthy leading)
      ]
    ]
  ]
