-- ===== src/Engine/Mismatch.antt =====
-- tick/engine.py: the first and the second cadence mismatch of a schedule.
use z4j_scheduler.Prelude.{
  ℕ, ◌≡◌, refl, sym, ap, ◌∙◌, subst, Bool, true, false, Option, some, List, [], ◌∷◌, ◌++◌, ◌==◌,
  ==_refl, if◌then◌else◌, Bool-cases, inl, inr,
}
use z4j_scheduler.Dict.{Dict, get, put, contains}
use z4j_scheduler.Dict.Laws.{get-put_same, contains-add, contains-discard}
use z4j_scheduler.Entry.{Uuid, ScheduleEntry, control_identity_eq, schedule_control_identity}
use z4j_scheduler.Cache.Latches.{stop_is_superseded, quarantine_locally, latch_current_stop}
use z4j_scheduler.Cache.State.{Cache, LocalQuarantine}
use z4j_scheduler.Quarantine.{
  PendingQuarantineReport, is_pending, enqueue, enqueue_for, pending_report, Answer,
}
use z4j_scheduler.Engine.{TickEngine}
use z4j_scheduler.Engine.Stops.{
  lift_stop, lift_stops, on_cadence_contract_renegotiated, agreed, queue_report, latch_mismatch,
  handle_cadence_mismatch, record_local_quarantine,
}

-- Lifting stops queues no report.
lift_stops-reports :
    (d : Dict Uuid) (s : TickEngine) → (lift_stops d s).quarantine_reporter ≡ s.quarantine_reporter
unfolding lift_stops
lift_stops-reports [] s = refl
lift_stops-reports ((k, t) ∷ d) s = lift_stops-reports d (lift_stop k t s)

-- Every lifted schedule is marked as renegotiated, and no other.
abbrev pub key_in : Dict Uuid → ℕ → Bool
key_in [] k = false
key_in ((j, t) ∷ d) k = if j == k then true else key_in d k

lift_stops-marks :
    (d : Dict Uuid) (s : TickEngine) (k : ℕ)
    → contains (lift_stops d s).cadence_renegotiated k
      ≡ (if key_in d k then true else contains s.cadence_renegotiated k)
unfolding lift_stops
lift_stops-marks [] s k = refl
lift_stops-marks ((j, t) ∷ d) s k =
    lift_stops-marks d (lift_stop j t s) k
    ∙ rw (contains-add s.cadence_renegotiated j k)
        (swap (j == k) (key_in d k) (contains s.cadence_renegotiated k))
  where
    swap :
        (a b c : Bool)
        → (if b then true else (if a then true else c))
          ≡ (if (if a then true else b) then true else c)
    swap true true c = refl
    swap true false c = refl
    swap false b c = refl

latch_mismatch-reports :
    (k t : Uuid) (s : TickEngine)
    → (latch_mismatch k t s).quarantine_reporter ≡ s.quarantine_reporter
unfolding latch_mismatch
latch_mismatch-reports k t s = elim (Bool-cases (latch_current_stop k t 0 s.cache).1) [
  | inl h ↦ rw h refl
  | inr h ↦ rw h refl
]

latched_for :
    (k t : Uuid) (c : Cache) (live : ScheduleEntry)
    → get c.entries k ≡ some live
    → live.control_token ≡ some t
    → (latch_current_stop k t 0 c).1 ≡ true
unfolding latch_current_stop stop_is_superseded
latched_for k t c live row token = rw (latch_current_stop, row, token, ==_refl t) refl

key_in-put : (d : Dict Uuid) (k t : ℕ) → key_in (put d k t) k ≡ true
unfolding put
key_in-put [] k t = rw (==_refl k) refl
key_in-put ((j, u) ∷ d) k t = elim (Bool-cases (j == k)) [
  | inl h ↦ rw (h, ==_refl k) refl
  | inr h ↦ rw (h, h) (key_in-put d k t)
]

latch_mismatch-key :
    (k t : Uuid) (s : TickEngine) (live : ScheduleEntry)
    → get s.cache.entries k ≡ some live
    → live.control_token ≡ some t
    → key_in (latch_mismatch k t s).cadence_mismatch_latched k ≡ true
unfolding latch_mismatch
latch_mismatch-key k t s live row token =
    rw (latched_for k t s.cache live row token) (key_in-put s.cadence_mismatch_latched k t)

latch_mismatch-marks :
    (k t : Uuid) (s : TickEngine)
    → (latch_mismatch k t s).cadence_renegotiated ≡ s.cadence_renegotiated
unfolding latch_mismatch
latch_mismatch-marks k t s = elim (Bool-cases (latch_current_stop k t 0 s.cache).1) [
  | inl h ↦ rw h refl
  | inr h ↦ rw h refl
]

-- A cadence mismatch of a row that is not in its retry, under a control token that the cache still
-- holds, queues no quarantine report, and marks the row for a retry exactly when the renegotiation
-- agrees, where no other task runs meanwhile.
pub first_mismatch :
    (hook : Option (Answer Bool)) (e live : ScheduleEntry) (t : Uuid) (s : TickEngine)
    → contains s.cadence_renegotiated e.id ≡ false
    → get s.cache.entries e.id ≡ some live
    → live.control_token ≡ some t
    → let s' = handle_cadence_mismatch hook (λ s. s) e (some t) s in
      (s'.quarantine_reporter ≡ s.quarantine_reporter)
      × (contains s'.cadence_renegotiated e.id ≡ agreed hook)
unfolding handle_cadence_mismatch on_cadence_contract_renegotiated
first_mismatch hook e live t s fresh row token =
    let l = latch_mismatch e.id t s in
    elim (Bool-cases (agreed hook)) [
      | inl h ↦
          rw (fresh, h)
            (
              lift_stops-reports l.cadence_mismatch_latched l ∙ latch_mismatch-reports e.id t s,
              lift_stops-marks l.cadence_mismatch_latched l e.id
                  ∙ rw (latch_mismatch-key e.id t s live row token) refl,
            )
      | inr h ↦
          rw (fresh, h)
            (
              latch_mismatch-reports e.id t s,
              ap (λ m. contains m e.id) (latch_mismatch-marks e.id t s) ∙ fresh,
            )
    ]

enqueue-pending :
    (e : ScheduleEntry) (t : Uuid) (q : LocalQuarantine) (c : Cache)
    (reports : List PendingQuarantineReport)
    → e.control_token ≡ some t
    → (e.schedule_revision == 0) ≡ false
    → is_pending e.id t reports ≡ false
    → (enqueue e q (record { cache = c; pending = reports })).0.pending
      ≡ reports ++ (pending_report e t q ∷ [])
unfolding enqueue enqueue_for
enqueue-pending e t q c reports token revision fresh =
    subst
      (λ o.
        (enqueue_for o e q (record { cache = c; pending = reports })).0.pending
        ≡ reports ++ (pending_report e t q ∷ []))
      (sym token) (rw (revision, fresh) refl)

queued :
    (e : ScheduleEntry) (t : Uuid) (q : LocalQuarantine) (c : Cache)
    (wired : Option (List PendingQuarantineReport)) (reports : List PendingQuarantineReport)
    (latch : Option LocalQuarantine)
    → wired ≡ some reports
    → latch ≡ some q
    → e.control_token ≡ some t
    → (e.schedule_revision == 0) ≡ false
    → is_pending e.id t reports ≡ false
    → (r : PendingQuarantineReport) × (queue_report e wired latch c ≡ some (reports ++ (r ∷ [])))
      × (r.schedule_id ≡ e.id)
      × (r.control_token ≡ t)
queued e t q c wired reports latch w l token revision fresh = (
  pending_report e t q,
  rw (w, l) (ap some (enqueue-pending e t q c reports token revision fresh)),
  refl,
  refl,
)

-- A cadence mismatch of a row in its retry, with a wired reporter that has no report of the row's
-- token yet and a row of the same control identity in the cache, disables the row, ends the retry
-- and queues one report of the row and its token.
pub second_mismatch :
    (hook : Option (Answer Bool)) (e live : ScheduleEntry) (t : Uuid) (s : TickEngine)
    (reports : List PendingQuarantineReport)
    → contains s.cadence_renegotiated e.id ≡ true
    → get s.cache.entries e.id ≡ some live
    → control_identity_eq (schedule_control_identity live) (schedule_control_identity e) ≡ true
    → s.quarantine_reporter ≡ some reports
    → e.control_token ≡ some t
    → (e.schedule_revision == 0) ≡ false
    → is_pending e.id t reports ≡ false
    → let s' = handle_cadence_mismatch hook (λ s. s) e (some t) s in
      (get s'.cache.entries e.id ≡ some (record live { is_enabled = false }))
      × (contains s'.cadence_renegotiated e.id ≡ false)
      × ((r : PendingQuarantineReport) × (s'.quarantine_reporter ≡ some (reports ++ (r ∷ [])))
          × (r.schedule_id ≡ e.id)
          × (r.control_token ≡ t))
unfolding handle_cadence_mismatch record_local_quarantine quarantine_locally
second_mismatch hook e live t s reports again row same wired token revision fresh =
    rw (again, quarantine_locally, row, same)
      (
        get-put_same s.cache.entries e.id _,
        contains-discard s.cadence_renegotiated e.id e.id ∙ rw (==_refl e.id) refl,
        queued e t _ _ _ reports _ wired (get-put_same s.cache.local_quarantines e.id _) token
            revision fresh,
      )
