-- ===== src/Engine/Tests.antt =====
-- tick/engine.py: an engine with one due schedule.
use z4j_scheduler.Prelude.{◌+◌, ◌≤◌, ◌<◌, ◌≡◌, ◌⊎◌, refl, true, false, none, some, [], ◌∷◌, ◌++◌}
use z4j_scheduler.Dict.{get, get_or, contains}
use z4j_scheduler.Entry.{ScheduleEntry, ScheduleKind, control_identity_eq}
use z4j_scheduler.Cache.State.{Cache, empty_cache}
use z4j_scheduler.Cache.Fixtures.{row}
use z4j_scheduler.Quarantine.{PendingQuarantineReport, answered, failed, is_pending}
use z4j_scheduler.Tick.Cadence.{Calendars, compute_next_fire, one_shot_next_fire}
use z4j_scheduler.Engine.{TickEngine, Marked, Entitlement, second, max_fire_backoff}
use z4j_scheduler.Engine.Marks.{
  judge, effective_grace, prior_grant, marked_of, back_off_after_fire_error, claim,
}
use z4j_scheduler.Engine.Stops.{handle_cadence_mismatch, agreed}
use z4j_scheduler.Engine.Drain.{World}
use z4j_scheduler.Engine.Fire.{fire_with_catch_up}
use z4j_scheduler.Engine.Upkeep.{prune_stale_fire_state}
use z4j_scheduler.Engine.Sent.{Cleared, fire_with_catch_up-Cleared}
use z4j_scheduler.Engine.OnTime.{on_time_sent}
use z4j_scheduler.Engine.Claims.{Claimed, claim-Claimed, id_in, back_off_excludes}
use z4j_scheduler.Engine.Mismatch.{first_mismatch, second_mismatch}
use z4j_scheduler.Engine.Pruned.{prune-IsLive, IsLive}

abbrev entry : ScheduleEntry
entry = record (row 1 5 3 true) { kind = ScheduleKind.one_shot }

abbrev one_row : Cache
one_row = record (empty_cache 3) { entries = (1, entry) ∷ [] }

abbrev engine : TickEngine
engine = record {
  cache = one_row;
  quarantine_reporter = some [];
  in_flight = [];
  fan_out_idle = true;
  pending_disables = [];
  fire_error_counts = [];
  fire_backoff_until = [];
  fire_backoff_def = [];
  compute_quarantined = [];
  follower_parked = [];
  follower_handoff = [];
  slot_entitled = [];
  cadence_mismatch_latched = [];
  cadence_renegotiated = [];
  leader_heartbeat = 2000000;
  on_time_grace = 30000000;
}

abbrev calendars : Calendars
calendars = record {
  croniter = record {
    knows_zone = λ z. true;
    is_cron = λ x. true;
    get_next = λ x z t n. some (t + n + 1);
    get_prev = λ x z t n. none;
    utcoffset = λ z t. 0;
  };
  fromisoformat = λ x. none;
  solar_events = λ x. none;
}

-- A world in which nothing stops the engine, and every dispatch fails.
abbrev world : World
world = record {
  calendars = calendars;
  clock = 400;
  is_stopped = λ m. false;
  watch_healthy = λ m. true;
  is_leader = λ m p. true;
  meanwhile = λ m s. s;
  replaced = λ m. false;
  dispatch = λ e p. failed;
  advance_cursor = λ e p. failed;
  renegotiate = some (answered true);
}

fire_with_catch_up-Cleared_example :
    ((fire_with_catch_up world 400 entry engine).sent ≡ [])
    ⊎ Cleared world 400 entry engine (fire_with_catch_up world 400 entry engine).sent
fire_with_catch_up-Cleared_example = fire_with_catch_up-Cleared world 400 entry engine

on_time_sent_example :
    (fire_with_catch_up world 400 entry engine).sent
    ≡ record { scheduled_for = 300; next_run_at = none } ∷ []
unfolding compute_next_fire one_shot_next_fire judge effective_grace get prior_grant
on_time_sent_example =
    on_time_sent world 400 entry entry 300 none engine refl refl refl refl refl refl refl refl refl
      refl refl refl

claim-Claimed_example :
    Claimed 400 engine
      (claim (λ p. true) 400 (entry ∷ []) engine).0
      (claim (λ p. true) 400 (entry ∷ []) engine).1
claim-Claimed_example = claim-Claimed (λ p. true) 400 (entry ∷ []) engine

back_off_excludes_example :
    let s' = back_off_after_fire_error 500 entry engine in
    (600 < 500 + second → id_in (claim (λ p. true) 600 (entry ∷ []) s').1 entry.id ≡ false)
    × (500 + max_fire_backoff ≤ 600 → get_or s'.fire_backoff_until entry.id 600 ≤ 600)
back_off_excludes_example = back_off_excludes (λ p. true) 500 600 entry (entry ∷ []) engine

first_mismatch_example :
    let s' = handle_cadence_mismatch (some (answered true)) (λ s. s) entry (some 7) engine in
    (s'.quarantine_reporter ≡ engine.quarantine_reporter)
    × (contains s'.cadence_renegotiated entry.id ≡ agreed (some (answered true)))
unfolding contains get
first_mismatch_example = first_mismatch (some (answered true)) entry entry 7 engine refl refl refl

abbrev retried : TickEngine
retried = record engine { cadence_renegotiated = 1 ∷ [] }

second_mismatch_example :
    let s' = handle_cadence_mismatch none (λ s. s) entry (some 7) retried in
    (get s'.cache.entries entry.id ≡ some (record entry { is_enabled = false }))
    × (contains s'.cadence_renegotiated entry.id ≡ false)
    × ((r : PendingQuarantineReport) × (s'.quarantine_reporter ≡ some ([] ++ (r ∷ [])))
        × (r.schedule_id ≡ entry.id)
        × (r.control_token ≡ 7))
unfolding contains get control_identity_eq is_pending
second_mismatch_example =
    second_mismatch none entry entry 7 retried [] refl refl refl refl refl refl refl

abbrev entitled : TickEngine
entitled = record engine {
  slot_entitled = (1, record { marked = marked_of entry 300; granted_at = 300 }) ∷ [];
}

prune-IsLive_example :
    let s' = prune_stale_fire_state 400 (entry ∷ []) entitled in
    ((p : Entitlement)
      → get s'.slot_entitled 1 ≡ some p
      → IsLive (entry ∷ []) 1 p.marked.slot × (400 ≤ p.granted_at + 900000000))
    × ((m : Marked)
        → get s'.follower_handoff 1 ≡ some m
        → (l : IsLive (entry ∷ []) 1 m.slot) × ((
          l.row.kind, l.row.expression, l.row.timezone, l.row.catch_up,
        )
            ≡ m.cadence))
prune-IsLive_example = prune-IsLive 400 (entry ∷ []) entitled 1
