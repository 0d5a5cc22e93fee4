-- ===== src/Engine/Turns.antt =====
-- tick/engine.py: a turn of the loop over the slots sends the slot of the turn, and nothing else.
use z4j_scheduler.Prelude.{
  ℕ, ◌≡◌, refl, Bool, true, false, Option, none, some, List, [], ◌∷◌, ◌++◌, ◌==◌, Bool-cases, inl,
  inr,
}
use z4j_scheduler.Entry.{Uuid, ScheduleEntry}
use z4j_scheduler.Cache.State.{Cache, Result, ok, raise}
use z4j_scheduler.Cache.Latches.{token_is}
use z4j_scheduler.Quarantine.{Answer, answered, failed}
use z4j_scheduler.Dispatch.{
  FireResult, FireDisposition, accepted, retryable_or_ambiguous, terminal_quarantined,
  slot_resolved_refresh, stale_control_refresh, legacy_upgrade_required, cadence_semantics_mismatch,
  PreparedFire,
}
use z4j_scheduler.Engine.Drain.{
  World, Drain, Turned, next, leave, is_malformed, conflicts, after_transition, on_accepted,
  on_disposition, on_answer, send_slot, advance_prior, apply_prepared_advance,
}

module _ (w : World) where
  -- What a turn has sent.
  abbrev pub sent_of : Turned → List PreparedFire
  sent_of (leave l d) = d.sent
  sent_of (next d) = d.sent

  after_transition-sent :
      (p : PreparedFire) (r : FireResult) (d : Drain) (x : Cache × Result Bool)
      → sent_of (after_transition w p r d x) ≡ d.sent
  after_transition-sent p r d (c, raise x) = refl
  after_transition-sent p r d (c, ok applied) =
      elim applied as (λ b. sent_of (after_transition w p r d (c, ok b)) ≡ d.sent) [
        | false ↦ refl
        | true ↦ elim (Bool-cases (r.live_revision == r.acceptance_revision)) [
          | inl e ↦ rw e refl
          | inr e ↦ rw e refl
        ]
      ]

  on_accepted-sent :
      (e : ScheduleEntry) (token : Uuid) (p : PreparedFire) (r : FireResult) (d : Drain)
      → sent_of (on_accepted w e token p r d) ≡ d.sent
  unfolding on_accepted
  on_accepted-sent e token p r d = elim (Bool-cases (is_malformed w e p r)) [
    | inl bad ↦ rw bad refl
    | inr good ↦ elim (Bool-cases (conflicts w r)) [
      | inl bad ↦ rw (good, bad) refl
      | inr fine ↦ elim (Bool-cases (token_is r.live_control_token token)) [
        | inr moved ↦ rw (good, fine, moved) refl
        | inl same ↦ rw (good, fine, same) (after_transition-sent p r d _)
      ]
    ]
  ]

  on_disposition-sent :
      (n : ℕ) (e : ScheduleEntry) (token : Uuid) (p : PreparedFire) (r : FireResult)
      (o : Option FireDisposition) (d : Drain)
      → sent_of (on_disposition w n e token p r o d) ≡ d.sent
  unfolding on_disposition
  on_disposition-sent n e token p r none d = refl
  on_disposition-sent n e token p r (some cadence_semantics_mismatch) d = refl
  on_disposition-sent n e token p r (some terminal_quarantined) d = refl
  on_disposition-sent n e token p r (some slot_resolved_refresh) d = refl
  on_disposition-sent n e token p r (some stale_control_refresh) d = refl
  on_disposition-sent n e token p r (some legacy_upgrade_required) d = refl
  on_disposition-sent n e token p r (some retryable_or_ambiguous) d = refl
  on_disposition-sent n e token p r (some accepted) d = on_accepted-sent e token p r d

  pub advance_prior-sent :
      (o : Option PreparedFire) (b : Bool) (d : Drain) → (advance_prior w o b d).sent ≡ d.sent
  unfolding apply_prepared_advance
  advance_prior-sent none b d = refl
  advance_prior-sent (some p) true d = refl
  advance_prior-sent (some p) false d = refl

  on_answer-sent :
      (n : ℕ) (e : ScheduleEntry) (token : Option Uuid) (p : PreparedFire)
      (a : Answer (Option FireResult)) (d : Drain)
      → sent_of (on_answer w n e token p a d) ≡ d.sent
  unfolding on_answer
  on_answer-sent n e none p failed d = advance_prior-sent d.last_dispatched false d
  on_answer-sent n e (some token) p failed d = refl
  on_answer-sent n e none p (answered r) d = refl
  on_answer-sent n e (some token) p (answered none) d = refl
  on_answer-sent n e (some token) p (answered (some r)) d =
      on_disposition-sent n e token p r r.disposition d

  pub send_slot-sent :
      (n : ℕ) (token : Option Uuid) (p : PreparedFire) (d : Drain)
      → sent_of (send_slot w n token p d) ≡ d.sent ++ (p ∷ [])
  unfolding send_slot
  send_slot-sent n token p d = on_answer-sent n d.entry token p (w.dispatch d.entry p) _
