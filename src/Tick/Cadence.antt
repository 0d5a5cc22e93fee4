-- ===== src/Tick/Cadence.antt =====
-- The next fire of every kind of schedule: tick/one_shot.py around `datetime.fromisoformat`,
-- tick/cadence.py, and the dispatch on the kind in tick/engine.py. The instants of
-- a schedule are aware.
use z4j_scheduler.Prelude.{◌≡◌, refl, Option, none, some, Text}
use z4j_scheduler.Entry.{
  Instant, ScheduleEntry, ScheduleKind, cron, interval, clocked, one_shot, solar,
}
use z4j_scheduler.Tick.Interval.{
  Datetime, naive, aware, Attempt, returned, raised, interval_expression_error, TickError,
  value_error, overflow_error,
}
use z4j_scheduler.Tick.Interval as Interval
use z4j_scheduler.Tick.Cron.{Computed, computed, expression_error, broke, Croniter, cron_next_fire}
use z4j_scheduler.Tick.Solar.{SolarEvents, next_solar_fire}

-- The libraries below the cadences.
pub record Calendars : Type 0 where
  pub croniter : Croniter
  pub fromisoformat : Text → Option Datetime
  pub solar_events : SolarEvents

abbrev pub moment_of : Option Datetime → Computed (Option Instant)
moment_of none = expression_error
moment_of (some (naive t)) = expression_error
moment_of (some (aware t)) = computed (some t)

-- tick/one_shot.py `next_fire`
unfoldable pub one_shot_next_fire : Calendars → Text → Option Instant → Computed (Option Instant)
one_shot_next_fire c expression (some t) = computed none
one_shot_next_fire c expression none = moment_of (c.fromisoformat expression)

abbrev aware_option : Option Instant → Option Datetime
aware_option none = none
aware_option (some t) = some (aware t)

-- tick/interval.py `next_fire`, called with aware instants.
abbrev pub interval_result : Attempt Datetime → Computed (Option Instant)
interval_result (returned (aware t)) = computed (some t)
interval_result (returned (naive t)) = broke
interval_result (raised interval_expression_error) = expression_error
interval_result (raised value_error) = broke
interval_result (raised overflow_error) = broke

abbrev pub interval_next : Text → Option Instant → Instant → Computed (Option Instant)
interval_next expression last anchor =
    interval_result (Interval.next_fire expression (aware_option last) (aware anchor))

abbrev pub some_next : Computed Instant → Computed (Option Instant)
some_next (computed t) = computed (some t)
some_next expression_error = expression_error
some_next broke = broke

abbrev pub solar_result : Option (Option Instant) → Computed (Option Instant)
solar_result none = expression_error
solar_result (some t) = computed t

-- last if last is not None else anchor
abbrev pub last_or : Option Instant → Instant → Instant
last_or none t = t
last_or (some s) t = s

-- tick/cadence.py `canonical_next_run_at`
unfoldable pub canonical_next_run_at :
    Calendars → ScheduleKind → Text → Text → Option Instant → Instant → Computed (Option Instant)
canonical_next_run_at c cron expression timezone last anchor =
    some_next (cron_next_fire c.croniter expression timezone (last_or last anchor))
canonical_next_run_at c interval expression timezone last anchor =
    interval_next expression last anchor
canonical_next_run_at c clocked expression timezone last anchor =
    one_shot_next_fire c expression last
canonical_next_run_at c one_shot expression timezone last anchor =
    one_shot_next_fire c expression last
canonical_next_run_at c solar expression timezone last anchor =
    solar_result (next_solar_fire c.solar_events expression (last_or last anchor))

-- tick/engine.py `_next_fire_for` up to its handlers, with the clock that it reads when the schedule has
-- not fired.
unfoldable pub compute_next_fire :
    Calendars → Instant → ScheduleKind → ScheduleEntry → Option Instant → Computed (Option Instant)
compute_next_fire c clock cron e last =
    some_next (cron_next_fire c.croniter e.expression e.timezone (last_or last clock))
compute_next_fire c clock interval e last = interval_next e.expression last e.anchor_at
compute_next_fire c clock clocked e last = one_shot_next_fire c e.expression last
compute_next_fire c clock one_shot e last = one_shot_next_fire c e.expression last
compute_next_fire c clock solar e last =
    solar_result (next_solar_fire c.solar_events e.expression (last_or last clock))

-- The successor that the engine computes for a slot is the canonical one, whatever the clock says.
pub next_fire-eq-canonical :
    (c : Calendars) (clock : Instant) (e : ScheduleEntry) (slot : Instant)
    → compute_next_fire c clock e.kind e (some slot)
      ≡ canonical_next_run_at c e.kind e.expression e.timezone (some slot) e.anchor_at
unfolding compute_next_fire canonical_next_run_at
next_fire-eq-canonical c clock e slot =
    elim e.kind
      as (λ k.
        compute_next_fire c clock k e (some slot)
        ≡ canonical_next_run_at c k e.expression e.timezone (some slot) e.anchor_at) [
          | cron ↦ refl
          | interval ↦ refl
          | clocked ↦ refl
          | one_shot ↦ refl
          | solar ↦ refl
        ]
