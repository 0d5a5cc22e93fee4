-- ===== src/Quarantine/Tests.antt =====
-- storage/quarantine.py: one queued report.
use z4j_scheduler.Prelude.{ℕ, ◌≡◌, refl, true, none, [], codes}
use z4j_scheduler.Entry.{Uuid, ControlIdentity}
use z4j_scheduler.Cache.State.{LocalQuarantine}
use z4j_scheduler.Cache.Fixtures.{row, two_rows}
use z4j_scheduler.Quarantine.{
  PendingQuarantineReport, QuarantineResult, QuarantineReporter, QuarantineOutcome,
  ScheduleStateObservation, Answer, answered, failed, is_pending, enqueue, enqueue_for, flush_once,
}
use z4j_scheduler.Quarantine.Queue.{flush_keeps}

abbrev report : LocalQuarantine
report = record {
  definition_identity = ControlIdentity.control_token 7;
  code = codes "definition_invalid";
  detail = [];
}

abbrev empty_queue : QuarantineReporter
empty_queue = record { cache = two_rows; pending = [] }

abbrev queue : QuarantineReporter
queue = (enqueue (row 1 5 3 true) report empty_queue).0

-- The Brain says that the control token is stale, and that the schedule is gone.
abbrev refuse : PendingQuarantineReport → Answer QuarantineResult
refuse r = answered (record { outcome = QuarantineOutcome.stale_control; observed_revision = 6 })

abbrev observe : Uuid → Uuid → ℕ → Answer ScheduleStateObservation
observe p k minimum =
    answered (record { project_id = p; schedule_id = k; observed_revision = 6; schedule = none })

abbrev unreachable : PendingQuarantineReport → Answer QuarantineResult
unreachable r = failed

queue_pending : is_pending 1 7 queue.pending ≡ true
unfolding enqueue enqueue_for is_pending
queue_pending = refl

flush_keeps_example : is_pending 1 7 (flush_once unreachable observe queue).pending ≡ true
flush_keeps_example = flush_keeps unreachable observe 1 7 queue (λ r h. refl) queue_pending
