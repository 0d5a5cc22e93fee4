-- ===== src/Engine/Backlog.antt =====
-- tick/engine.py: the missed slots of an entry, and the plan that the catch-up policy makes of them.
use z4j_scheduler.Prelude.{
  ℕ, ◌-◌, Bool, true, false, Option, none, some, List, [], ◌∷◌, Text, codes, length,
}
use z4j_scheduler.Entry.{
  Instant, ScheduleEntry, ScheduleKind, cron, interval, clocked, one_shot, solar, CatchUpPolicy,
  skip, fire_one_missed, fire_all_missed,
}
use z4j_scheduler.Tick.Interval.{
  Attempt, returned, raised, interval_expression_error, value_error, overflow_error, aware,
}
use z4j_scheduler.Tick.Interval as Interval
use z4j_scheduler.Tick.Cron.{Computed, computed, expression_error, broke}
use z4j_scheduler.Tick.Cron as Cron
use z4j_scheduler.Tick.Solar as Solar
use z4j_scheduler.Tick.Cadence.{Calendars, last_or}
use z4j_scheduler.Tick.CatchUp.{Plan, plan, invalid_policy_error, plan_catch_up}
use z4j_scheduler.Engine.{Outcome, done, threw}

-- The cap of the three `fires_between`.
abbrev pub max_slots : ℕ
max_slots = 10000

-- `[scheduled_for, *slots]` of a schedule that never fired, and the slot itself where there is none.
abbrev with_first : Option Instant → Instant → List Instant → List Instant
with_first none t slots = t ∷ slots
with_first (some l) t [] = t ∷ []
with_first (some l) t (x ∷ xs) = x ∷ xs

-- An expression that does not parse falls back to the one slot.
abbrev missed_of : Option Instant → Instant → Computed (List Instant) → Outcome (List Instant)
missed_of last t (computed slots) = done (with_first last t slots)
missed_of last t expression_error = done (t ∷ [])
missed_of last t broke = threw

abbrev interval_slots : Attempt (List Instant) → Computed (List Instant)
interval_slots (returned slots) = computed slots
interval_slots (raised interval_expression_error) = expression_error
interval_slots (raised value_error) = broke
interval_slots (raised overflow_error) = broke

abbrev solar_slots : Option (List Instant) → Computed (List Instant)
solar_slots (some slots) = computed slots
solar_slots none = expression_error

-- `_compute_missed_cron_slots`, `_compute_missed_interval_slots` and `_compute_missed_solar_slots`.
unfoldable pub missed_slots :
    Calendars → ScheduleKind → ScheduleEntry → Instant → Instant → Outcome (List Instant)
missed_slots c cron e t now =
    missed_of e.last_fire_at t (
      Cron.fires_between c.croniter e.expression e.timezone (last_or e.last_fire_at t) now
        max_slots)
missed_slots c interval e t now = missed_of e.last_fire_at t (
    interval_slots (
      Interval.fires_between e.expression (aware (last_or e.last_fire_at t)) (aware now) max_slots))
missed_slots c solar e t now = missed_of e.last_fire_at t (
    solar_slots
      (Solar.fires_between c.solar_events e.expression (last_or e.last_fire_at t) now max_slots))
missed_slots c clocked e t now = done (t ∷ [])
missed_slots c one_shot e t now = done (t ∷ [])

abbrev pub policy_name : CatchUpPolicy → Text
policy_name skip = codes "skip"
policy_name fire_one_missed = codes "fire_one_missed"
policy_name fire_all_missed = codes "fire_all_missed"

-- missed_times[-1] if missed_times else scheduled_for
unfoldable pub last_or_slot : Instant → List Instant → Instant
last_or_slot t [] = t
last_or_slot t (x ∷ xs) = last_or_slot x xs

-- The slots to dispatch, the anchor that is stamped once they are, and the count of those dropped.
pub record Decision : Type 0 where
  pub slots : List Instant
  pub advance_anchor : Instant
  pub discarded : ℕ

abbrev decided : Instant → List Instant → Plan → Outcome Decision
decided t missed (plan slots) = done (record {
  slots = slots;
  advance_anchor = last_or_slot t missed;
  discarded = length missed - length slots;
})
decided t missed invalid_policy_error = threw

abbrev decide_missed : ScheduleEntry → Instant → Outcome (List Instant) → Outcome Decision
decide_missed e t threw = threw
decide_missed e t (done missed) = decided t missed (plan_catch_up (policy_name e.catch_up) missed)

-- entry.kind in ("clocked", "one_shot")
abbrev pub fires_once : ScheduleKind → Bool
fires_once clocked = true
fires_once one_shot = true
fires_once cron = false
fires_once interval = false
fires_once solar = false

-- The plan of a due slot, with whether it was judged to be on time.
unfoldable pub decide : Calendars → Bool → ScheduleEntry → Instant → Instant → Outcome Decision
decide c on_time e t now = elim (fires_once e.kind) [
  | true ↦ done (record { slots = t ∷ []; advance_anchor = t; discarded = 0 })
  | false ↦ elim on_time [
    | true ↦ done (record { slots = t ∷ []; advance_anchor = t; discarded = 0 })
    | false ↦ decide_missed e t (missed_slots c e.kind e t now)
  ]
]
