-- ===== src/Quarantine/Queue.antt =====
-- storage/quarantine.py: which reports stay queued, and what a round does to the cache.
use z4j_scheduler.Prelude.{
  ℕ, ◌≡◌, refl, true, false, Option, none, some, List, [], ◌∷◌, ◌++◌, arith, ◌==◌, ◌&&◌, ==_iff,
  ==_refl, inl, inr, Bool-cases,
}
use z4j_scheduler.Entry.{Uuid, ScheduleEntry}
use z4j_scheduler.Cache.State.{Cache, LocalQuarantine, Result, ok, raise}
use z4j_scheduler.Cache.Invariant.{IsWellFormed}
use z4j_scheduler.Cache.Invariant.Merging.{Keeps-apply_watch_update}
use z4j_scheduler.Cache.Invariant.Deleting.{Keeps-apply_observed_absence}
use z4j_scheduler.Quarantine.{
  PendingQuarantineReport, QuarantineResult, QuarantineReporter, QuarantineOutcome,
  ScheduleStateObservation, Answer, answered, failed, applied, already_applied, stale_control,
  not_found, has_key, is_pending, pop_report, pending_report, enqueue_for, enqueue, settle, refresh,
  on_state, on_outcome, on_answer, try_report, try_all, flush_once,
}

is_pending-append :
    (k t : Uuid) (rs : List PendingQuarantineReport) (r : PendingQuarantineReport)
    → has_key k t r ≡ true
    → is_pending k t (rs ++ (r ∷ [])) ≡ true
unfolding is_pending
is_pending-append k t [] r h = ground (arith, h)
is_pending-append k t (x ∷ xs) r h = ground (arith, is_pending-append k t xs r h)

pop_other :
    (k t j u : Uuid) (rs : List PendingQuarantineReport)
    → (j == k && u == t) ≡ false
    → is_pending k t rs ≡ true
    → is_pending k t (pop_report j u rs) ≡ true
unfolding is_pending pop_report
pop_other k t j u [] other h = h
pop_other k t j u (r ∷ rs) other h = ground (
  arith,
  pop_other k t j u rs other,
  ==_iff r.schedule_id j,
  ==_iff r.control_token u,
  ==_iff r.schedule_id k,
  ==_iff r.control_token t,
  ==_iff j k,
  ==_iff u t,
)

settle-IsWellFormed :
    {A : Type 0} (r : PendingQuarantineReport) (s : QuarantineReporter) (x : Cache × Result A)
    → IsWellFormed x.0
    → IsWellFormed (settle r s x).cache
unfolding settle
settle-IsWellFormed r s (c, ok a) h = h
settle-IsWellFormed r s (c, raise e) h = h

settle_other :
    {A : Type 0} (r : PendingQuarantineReport) (s : QuarantineReporter) (x : Cache × Result A)
    (k t : Uuid)
    → has_key k t r ≡ false
    → is_pending k t s.pending ≡ true
    → is_pending k t (settle r s x).pending ≡ true
unfolding settle
settle_other r s (c, ok a) k t other h =
    pop_other k t r.schedule_id r.control_token s.pending other h
settle_other r s (c, raise e) k t other h = h

-- What trying a report may do: it keeps a cache well formed, and every other report queued.
abbrev IsStep : PendingQuarantineReport → QuarantineReporter → QuarantineReporter → Type 0
IsStep r s s' =
    (IsWellFormed s.cache → IsWellFormed s'.cache)
    × ((k t : Uuid)
        → has_key k t r ≡ false
        → is_pending k t s.pending ≡ true
        → is_pending k t s'.pending ≡ true)

settle-IsStep :
    {A : Type 0} (r : PendingQuarantineReport) (s : QuarantineReporter) (x : Cache × Result A)
    → (IsWellFormed s.cache → IsWellFormed x.0)
    → IsStep r s (settle r s x)
settle-IsStep r s x h = (λ w. settle-IsWellFormed r s x (h w), settle_other r s x)

refresh-IsStep :
    (r : PendingQuarantineReport) (o : ScheduleStateObservation) (e : Option ScheduleEntry)
    (s : QuarantineReporter)
    → IsStep r s (refresh r o e s)
unfolding refresh
refresh-IsStep r o none s =
    settle-IsStep r s _
      ((Keeps-apply_observed_absence o.schedule_id o.project_id o.observed_revision).at s.cache)
refresh-IsStep r o (some e) s = settle-IsStep r s _ ((Keeps-apply_watch_update e).at s.cache)

state-IsStep :
    (r : PendingQuarantineReport) (a : Answer ScheduleStateObservation) (s : QuarantineReporter)
    → IsStep r s (on_state r a s)
unfolding on_state
state-IsStep r failed s = (λ w. w, λ k t other h. h)
state-IsStep r (answered o) s = refresh-IsStep r o o.schedule s

queued :
    (e : ScheduleEntry) (q : LocalQuarantine) (s : QuarantineReporter) (token : Uuid)
    → is_pending e.id token (s.pending ++ (pending_report e token q ∷ [])) ≡ true
queued e q s token =
    is_pending-append e.id token s.pending (pending_report e token q)
      (ground (arith, ==_refl e.id, ==_refl token))

again :
    (token : Option Uuid) (e : ScheduleEntry) (q q' : LocalQuarantine) (s : QuarantineReporter)
    → enqueue_for token e q' (enqueue_for token e q s).0 ≡ enqueue_for token e q s
unfolding enqueue_for
again none e q q' s = refl
again (some token) e q q' s = ground (arith, queued e q s token)

-- To enqueue a row a second time, whatever the second quarantine says, changes nothing and returns
-- what the first call returned.
pub enqueue_once :
    (e : ScheduleEntry) (q q' : LocalQuarantine) (s : QuarantineReporter)
    → enqueue e q' (enqueue e q s).0 ≡ enqueue e q s
unfolding enqueue
enqueue_once e q q' s = again e.control_token e q q' s

module _ (quarantine_schedule : PendingQuarantineReport → Answer QuarantineResult)
    (get_schedule_state : Uuid → Uuid → ℕ → Answer ScheduleStateObservation) where
  outcome-IsStep :
      (r : PendingQuarantineReport) (n : ℕ) (o : QuarantineOutcome) (s : QuarantineReporter)
      → IsStep r s (on_outcome quarantine_schedule get_schedule_state r n o s)
  unfolding on_outcome
  outcome-IsStep r n applied s =
      (λ w. w, λ k t other h. pop_other k t r.schedule_id r.control_token s.pending other h)
  outcome-IsStep r n already_applied s =
      (λ w. w, λ k t other h. pop_other k t r.schedule_id r.control_token s.pending other h)
  outcome-IsStep r n not_found s =
      settle-IsStep r s _ ((Keeps-apply_observed_absence r.schedule_id r.project_id n).at s.cache)
  outcome-IsStep r n stale_control s = state-IsStep r _ s

  answer-IsStep :
      (r : PendingQuarantineReport) (a : Answer QuarantineResult) (s : QuarantineReporter)
      → IsStep r s (on_answer quarantine_schedule get_schedule_state r a s)
  unfolding on_answer
  answer-IsStep r failed s = (λ w. w, λ k t other h. h)
  answer-IsStep r (answered x) s = outcome-IsStep r x.observed_revision x.outcome s

  all-IsWellFormed :
      (rs : List PendingQuarantineReport) (s : QuarantineReporter)
      → IsWellFormed s.cache
      → IsWellFormed (try_all quarantine_schedule get_schedule_state rs s).cache
  unfolding try_all try_report
  all-IsWellFormed [] s h = h
  all-IsWellFormed (r ∷ rs) s h =
      all-IsWellFormed rs _ ((answer-IsStep r (quarantine_schedule r) s).0 h)

  -- A round of the quarantine reporter takes a well-formed cache to a well-formed one, whatever the
  -- Brain client answers.
  pub flush-IsWellFormed :
      (s : QuarantineReporter)
      → IsWellFormed s.cache
      → IsWellFormed (flush_once quarantine_schedule get_schedule_state s).cache
  unfolding flush_once
  flush-IsWellFormed s h = all-IsWellFormed s.pending s h

  failed_kept :
      (k t : Uuid) (r : PendingQuarantineReport) (s : QuarantineReporter)
      → (has_key k t r ≡ true → quarantine_schedule r ≡ failed)
      → is_pending k t s.pending ≡ true
      → is_pending k t (try_report quarantine_schedule get_schedule_state r s).pending ≡ true
  unfolding try_report on_answer
  failed_kept k t r s down h = elim (Bool-cases (has_key k t r)) [
    | inl same ↦ rw (down same) h
    | inr other ↦ (answer-IsStep r (quarantine_schedule r) s).1 k t other h
  ]

  all_kept :
      (k t : Uuid) (rs : List PendingQuarantineReport) (s : QuarantineReporter)
      → ((r : PendingQuarantineReport) → has_key k t r ≡ true → quarantine_schedule r ≡ failed)
      → is_pending k t s.pending ≡ true
      → is_pending k t (try_all quarantine_schedule get_schedule_state rs s).pending ≡ true
  unfolding try_all
  all_kept k t [] s down h = h
  all_kept k t (r ∷ rs) s down h = all_kept k t rs _ down (failed_kept k t r s (down r) h)

  -- A report that is queued is still queued after a round in which the Brain client fails for every
  -- report of its schedule and control token, whatever happens to the other reports.
  pub flush_keeps :
      (k t : Uuid) (s : QuarantineReporter)
      → ((r : PendingQuarantineReport) → has_key k t r ≡ true → quarantine_schedule r ≡ failed)
      → is_pending k t s.pending ≡ true
      → is_pending k t (flush_once quarantine_schedule get_schedule_state s).pending ≡ true
  unfolding flush_once
  flush_keeps k t s down h = all_kept k t s.pending s down h
