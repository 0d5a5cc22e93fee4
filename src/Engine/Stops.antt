-- ===== src/Engine/Stops.antt =====
-- tick/engine.py: how the engine stops a schedule locally, quarantines it, and lifts the stops that a
-- cadence mismatch set once both sides agree again.
use z4j_scheduler.Prelude.{
  ℕ, Bool, false, not, Option, none, some, List, [], ◌∷◌, ◌++◌, Text, codes, if◌then◌else◌,
}
use z4j_scheduler.Dict.{Dict, get, put, pop, contains, add, discard}
use z4j_scheduler.Entry.{
  Uuid, ScheduleEntry, ScheduleKind, cron, interval, clocked, one_shot, solar,
}
use z4j_scheduler.Cache.State.{Cache, LocalQuarantine}
use z4j_scheduler.Cache.Latches.{quarantine_locally, latch_current_stop, release_current_stop}
use z4j_scheduler.Quarantine.{PendingQuarantineReport, enqueue, Answer, answered, failed}
use z4j_scheduler.Engine.{TickEngine}
use z4j_scheduler.Engine.Marks.{clear_fire_errors}

abbrev kind_name : ScheduleKind → Text
kind_name cron = codes "cron"
kind_name interval = codes "interval"
kind_name clocked = codes "clocked"
kind_name one_shot = codes "one_shot"
kind_name solar = codes "solar"

-- f"{entry.kind}:{entry.expression}"
abbrev pub definition_detail : ScheduleEntry → Text
definition_detail e = kind_name e.kind ++ (58 ∷ e.expression)

-- A report is queued where a reporter is wired and the latch is there.
abbrev pub queue_report :
    ScheduleEntry
    → Option (List PendingQuarantineReport)
    → Option LocalQuarantine
    → Cache
    → Option (List PendingQuarantineReport)
queue_report e none q c = none
queue_report e (some reports) none c = some reports
queue_report e (some reports) (some q) c =
    let (r, queued) = enqueue e q (record { cache = c; pending = reports }) in some r.pending

unfoldable pub record_local_quarantine : ScheduleEntry → Text → Text → TickEngine → TickEngine
record_local_quarantine e code detail s =
    let (c, latched) = quarantine_locally e.id e code detail s.cache in
    if not latched then record s { cache = c } else record s {
      cache = c;
      quarantine_reporter = queue_report e s.quarantine_reporter (get c.local_quarantines e.id) c;
    }

unfoldable pub quarantine_after_fire_error : ScheduleEntry → TickEngine → TickEngine
quarantine_after_fire_error e s =
    record_local_quarantine e (codes "post_dispatch_state_ambiguous") (definition_detail e)
      (clear_fire_errors e.id s)

-- `_stop_until_brain_supersedes`, whose result no caller reads.
unfoldable pub stop_until_brain_supersedes : Uuid → Uuid → ℕ → TickEngine → TickEngine
stop_until_brain_supersedes k token refused_at_revision s = record s {
  cache = (latch_current_stop k token refused_at_revision s.cache).0;
}

-- One stop is lifted.
abbrev pub lift_stop : Uuid → Uuid → TickEngine → TickEngine
lift_stop k token s = record s {
  cadence_mismatch_latched = pop s.cadence_mismatch_latched k;
  cadence_renegotiated = add s.cadence_renegotiated k;
  cache = (release_current_stop k token s.cache).0;
}

unfoldable pub lift_stops : Dict Uuid → TickEngine → TickEngine
lift_stops [] s = s
lift_stops ((k, token) ∷ latched) s = lift_stops latched (lift_stop k token s)

unfoldable pub on_cadence_contract_renegotiated : TickEngine → TickEngine
on_cadence_contract_renegotiated s = lift_stops s.cadence_mismatch_latched s

-- `_request_renegotiation`, for the hook's answer where one is wired.
abbrev pub agreed : Option (Answer Bool) → Bool
agreed none = false
agreed (some failed) = false
agreed (some (answered b)) = b

-- The latch that a first mismatch sets.
unfoldable pub latch_mismatch : Uuid → Uuid → TickEngine → TickEngine
latch_mismatch k token s =
    let (c, latched) = latch_current_stop k token 0 s.cache in
    if latched
    then record s { cache = c; cadence_mismatch_latched = put s.cadence_mismatch_latched k token }
    else record s { cache = c }

-- `renegotiated` is what the other tasks do while the hook is awaited.
abbrev pub after_latch : Option (Answer Bool) → (TickEngine → TickEngine) → TickEngine → TickEngine
after_latch hook renegotiated s =
    if agreed hook then on_cadence_contract_renegotiated (renegotiated s) else renegotiated s

abbrev pub mismatch_quarantine : ScheduleEntry → TickEngine → TickEngine
mismatch_quarantine e s =
    record_local_quarantine e (codes "cadence_semantics_mismatch")
      (codes "Brain and scheduler cadence runtimes differ") s

-- `_handle_cadence_mismatch`
unfoldable pub handle_cadence_mismatch :
    Option (Answer Bool)
    → (TickEngine → TickEngine)
    → ScheduleEntry
    → Option Uuid
    → TickEngine
    → TickEngine
handle_cadence_mismatch hook renegotiated e token s =
    if contains s.cadence_renegotiated e.id
    then mismatch_quarantine e
        (record s { cadence_renegotiated = discard s.cadence_renegotiated e.id })
    else elim token [
      | none ↦ mismatch_quarantine e s
      | some t ↦ after_latch hook renegotiated (latch_mismatch e.id t s)
    ]
