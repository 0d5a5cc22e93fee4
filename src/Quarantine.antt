-- ===== src/Quarantine.antt =====
-- storage/quarantine.py: `QuarantineReporter`, the retry queue of quarantine reports. The answers of the
-- Brain client are arguments. No other task runs while a report is tried.
pub mod Queue
pub mod Tests
use z4j_scheduler.Prelude.{
  ℕ, Bool, true, false, not, Option, none, some, List, [], ◌∷◌, ◌++◌, Text, max, ◌==◌, ◌&&◌, ◌||◌,
  if◌then◌else◌, is_none,
}
use z4j_scheduler.Entry.{Uuid, ScheduleEntry}
use z4j_scheduler.Cache.State.{Cache, LocalQuarantine, Result, ok, raise}
use z4j_scheduler.Cache.Watch.{apply_watch_update}
use z4j_scheduler.Cache.Deletes.{apply_observed_absence}

pub record PendingQuarantineReport : Type 0 where
  pub schedule_id : Uuid
  pub project_id : Uuid
  pub control_token : Uuid
  pub reason_code : Text
  pub detail : Text
  pub minimum_observed_revision : ℕ

pub data QuarantineOutcome : Type 0 where
  applied already_applied stale_control not_found : QuarantineOutcome

pub record QuarantineResult : Type 0 where
  pub outcome : QuarantineOutcome
  pub observed_revision : ℕ

pub record ScheduleStateObservation : Type 0 where
  pub project_id : Uuid
  pub schedule_id : Uuid
  pub observed_revision : ℕ
  pub schedule : Option ScheduleEntry

-- What a call of the client answers, or that it raised.
pub data Answer (A : Type 0) : Type 0 where
  answered : A → Answer A
  failed : Answer A

-- The dict `_pending` in its order, whose key `(schedule_id, control_token)` is part of its values.
pub record QuarantineReporter : Type 0 where
  pub cache : Cache
  pub pending : List PendingQuarantineReport

abbrev pub has_key : Uuid → Uuid → PendingQuarantineReport → Bool
has_key k t r = r.schedule_id == k && r.control_token == t

-- `(k, t) in self._pending`
unfoldable pub is_pending : Uuid → Uuid → List PendingQuarantineReport → Bool
is_pending k t [] = false
is_pending k t (r ∷ rs) = has_key k t r || is_pending k t rs

-- self._pending.pop((k, t), None)
unfoldable pub pop_report :
    Uuid → Uuid → List PendingQuarantineReport → List PendingQuarantineReport
pop_report k t [] = []
pop_report k t (r ∷ rs) = if has_key k t r then rs else r ∷ pop_report k t rs

abbrev pub pending_report : ScheduleEntry → Uuid → LocalQuarantine → PendingQuarantineReport
pending_report e token q = record {
  schedule_id = e.id;
  project_id = e.project_id;
  control_token = token;
  reason_code = q.code;
  detail = q.detail;
  minimum_observed_revision = e.schedule_revision;
}

unfoldable pub enqueue_for :
    Option Uuid → ScheduleEntry → LocalQuarantine → QuarantineReporter → QuarantineReporter × Bool
enqueue_for none e q s = (s, false)
enqueue_for (some token) e q s =
    if e.schedule_revision == 0
    then (s, false)
    else if is_pending e.id token s.pending
    then (s, true)
    else (record s { pending = s.pending ++ (pending_report e token q ∷ []) }, true)

unfoldable pub enqueue :
    ScheduleEntry → LocalQuarantine → QuarantineReporter → QuarantineReporter × Bool
enqueue e q s = enqueue_for e.control_token e q s

-- `len(reporter)` is the length of `pending`. After a method of the cache the report is popped, unless
-- the method raised.
unfoldable pub settle :
    {A : Type 0}
    → PendingQuarantineReport
    → QuarantineReporter
    → Cache × Result A
    → QuarantineReporter
settle r s (c, ok a) = record s {
  cache = c;
  pending = pop_report r.schedule_id r.control_token s.pending;
}
settle r s (c, raise e) = record s { cache = c }

unfoldable pub refresh :
    PendingQuarantineReport
    → ScheduleStateObservation
    → Option ScheduleEntry
    → QuarantineReporter
    → QuarantineReporter
refresh r o none s =
    settle r s (apply_observed_absence o.schedule_id o.project_id o.observed_revision s.cache)
refresh r o (some e) s = settle r s (apply_watch_update e s.cache)

unfoldable pub on_state :
    PendingQuarantineReport
    → Answer ScheduleStateObservation
    → QuarantineReporter
    → QuarantineReporter
on_state r failed s = s
on_state r (answered o) s = refresh r o o.schedule s

module _ (quarantine_schedule : PendingQuarantineReport → Answer QuarantineResult)
    (get_schedule_state : Uuid → Uuid → ℕ → Answer ScheduleStateObservation) where
  unfoldable pub on_outcome :
      PendingQuarantineReport → ℕ → QuarantineOutcome → QuarantineReporter → QuarantineReporter
  on_outcome r observed applied s = record s {
    pending = pop_report r.schedule_id r.control_token s.pending;
  }
  on_outcome r observed already_applied s = record s {
    pending = pop_report r.schedule_id r.control_token s.pending;
  }
  on_outcome r observed not_found s =
      settle r s (apply_observed_absence r.schedule_id r.project_id observed s.cache)
  on_outcome r observed stale_control s =
      on_state r
        (get_schedule_state r.project_id r.schedule_id (max r.minimum_observed_revision observed)) s

  unfoldable pub on_answer :
      PendingQuarantineReport → Answer QuarantineResult → QuarantineReporter → QuarantineReporter
  on_answer r failed s = s
  on_answer r (answered result) s = on_outcome r result.observed_revision result.outcome s

  -- The body of the loop: an exception leaves the report where it is.
  unfoldable pub try_report : PendingQuarantineReport → QuarantineReporter → QuarantineReporter
  try_report r s = on_answer r (quarantine_schedule r) s

  unfoldable pub try_all : List PendingQuarantineReport → QuarantineReporter → QuarantineReporter
  try_all [] s = s
  try_all (r ∷ rs) s = try_all rs (try_report r s)

  unfoldable pub flush_once : QuarantineReporter → QuarantineReporter
  flush_once s = try_all s.pending s
