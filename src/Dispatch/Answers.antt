-- ===== src/Dispatch/Answers.antt =====
-- dispatch/fire.py: what `dispatch` and `trigger_now` send, acknowledge and return.
use z4j_scheduler.Prelude.{
  ◌≡◌, refl, ap, true, false, Option, none, some, List, [], ◌∷◌, ◌++◌, ◌&&◌, append_nil, Bool-cases,
  All, inl, inr, is_some, is_none,
}
use z4j_scheduler.Entry.{Uuid, Instant, ScheduleEntry}
use z4j_scheduler.Dispatch.{
  FireRequest, FireResult, success, PreparedFire, Ended, returned, raised, out_of_fuel, FireError,
  fire_dispatch_error, Acknowledgement, ack_success, ack_failed, Effect, requested, slept, counted,
  acknowledged, Surroundings,
}
use z4j_scheduler.Dispatch.Retry.{fire_with_retry}
use z4j_scheduler.Dispatch.Attempts.{
  requests, requests-append, IsAttempt, Ran, Runs, fire_with_retry-Runs, not-out_of_fuel,
}
use z4j_scheduler.Dispatch.Fire.{
  current_of, slot_matches, entry_matches, failure_text, settle, settle_current, settle_legacy,
  and_then, cadence_request, dispatch,
}

-- The acknowledgements that effects send.
abbrev pub acks : List Effect → List Acknowledgement
acks [] = []
acks (requested q ∷ es) = acks es
acks (slept a b ∷ es) = acks es
acks (counted s ∷ es) = acks es
acks (acknowledged a ∷ es) = a ∷ acks es

acks-append : (es fs : List Effect) → acks (es ++ fs) ≡ acks es ++ acks fs
acks-append [] fs = refl
acks-append (requested q ∷ es) fs = acks-append es fs
acks-append (slept a b ∷ es) fs = acks-append es fs
acks-append (counted s ∷ es) fs = acks-append es fs
acks-append (acknowledged a ∷ es) fs = ap (λ rs. a ∷ rs) (acks-append es fs)

-- The retry loop acknowledges nothing.
acks_of_attempts : (q : FireRequest) (es : List Effect) → All (IsAttempt q) es → acks es ≡ []
acks_of_attempts q [] h = refl
acks_of_attempts q (requested r ∷ es) (h, k) = acks_of_attempts q es k
acks_of_attempts q (slept a b ∷ es) (h, k) = acks_of_attempts q es k
acks_of_attempts q (counted s ∷ es) (h, k) = absurd h
acks_of_attempts q (acknowledged a ∷ es) (h, k) = absurd h

-- What a fire under durable control, and a legacy fire, come to after the reply `r`.
pub data SettledCurrent (f : Uuid) (r : FireResult)
    : Ended (Option FireResult) → List Acknowledgement → Type 0 where
  handed_over :
      success r ≡ true
      → is_some r.command_id ≡ true
      → SettledCurrent f r (returned (some r)) (
          record { fire_id = f; command_id = r.command_id; status = ack_success; error = none }
          ∷ [])
  in_buffer :
      success r ≡ true → is_some r.command_id ≡ false → SettledCurrent f r (returned (some r)) []
  not_accepted : success r ≡ false → SettledCurrent f r (returned (some r)) []
  untyped : r.disposition ≡ none → SettledCurrent f r (returned (some r)) []

pub data SettledLegacy (f : Uuid) (r : FireResult)
    : Ended (Option FireResult) → List Acknowledgement → Type 0 where
  fired :
      success r ≡ true
      → SettledLegacy f r (returned none) (
          record { fire_id = f; command_id = r.command_id; status = ack_success; error = none }
          ∷ [])
  refused :
      success r ≡ false
      → SettledLegacy f r (raised (fire_dispatch_error r.error_code r.error_message)) (
          record {
            fire_id = f;
            command_id = none;
            status = ack_failed;
            error = some (failure_text r);
          }
          ∷ [])

abbrev pub Settled :
    Option ScheduleEntry
    → Uuid
    → Ended FireResult
    → Ended (Option FireResult)
    → List Acknowledgement
    → Type 0
Settled none f (returned r) x sent = SettledLegacy f r x sent
Settled (some e) f (returned r) x sent = SettledCurrent f r x sent
Settled c f (raised e) x sent = (x ≡ raised e) × (sent ≡ [])
Settled c f out_of_fuel x sent = ⊥

none_of {ℓ} : {A : Type ℓ} (o : Option A) → is_none o ≡ true → o ≡ none
none_of none h = refl
none_of (some a) h = cc

abbrev OfSettle :
    Option ScheduleEntry → Uuid → FireResult → Ended (Option FireResult) × List Effect → Type 0
OfSettle c f r (x, es) = (Settled c f (returned r) x (acks es)) × (requests es ≡ [])

settle-Settled :
    (c : Option ScheduleEntry) (f : Uuid) (r : FireResult) → OfSettle c f r (settle c f r)
unfolding settle settle_current settle_legacy
settle-Settled none f r = elim (Bool-cases (success r)) [
  | inl h ↦ rw h (fired h, refl)
  | inr h ↦ rw h (refused h, refl)
]
settle-Settled (some e) f r = elim (Bool-cases (is_none r.disposition)) [
  | inl u ↦ rw u (untyped (none_of r.disposition u), refl)
  | inr t ↦ elim (Bool-cases (success r)) [
    | inr h ↦ rw (t, h) (not_accepted h, refl)
    | inl h ↦ elim (Bool-cases (is_some r.command_id)) [
      | inl c ↦ rw (t, h, c) (handed_over h c, refl)
      | inr c ↦ rw (t, h, c) (in_buffer h c, refl)
    ]
  ]
]

-- A dispatch: the retry loop ran on the request `q`, and what followed it fits how it ended.
pub record Dispatched (w : Surroundings) (q : FireRequest) (c : Option ScheduleEntry)
    (x : Ended (Option FireResult)) (es : List Effect) : Type 0 where
  pub outcome : Ended FireResult
  pub tries : List Effect
  pub ran : Ran w q 0 outcome tries
  pub sent : requests es ≡ requests tries
  pub settled : Settled c q.fire_id outcome x (acks es)

abbrev pub Dispatches :
    Surroundings
    → FireRequest
    → Option ScheduleEntry
    → Ended (Option FireResult) × List Effect
    → Type 0
Dispatches w q c (x, es) = Dispatched w q c x es

module _ (w : Surroundings) (q : FireRequest) (c : Option ScheduleEntry) where
  requests_settled : (es fs : List Effect) → requests fs ≡ [] → requests (es ++ fs) ≡ requests es
  requests_settled es fs h = rw (requests-append es fs, h) (append_nil (requests es))

  Dispatched-returned :
      (r : FireResult) (es : List Effect) (y : Ended (Option FireResult) × List Effect)
      → Ran w q 0 (returned r) es
      → OfSettle c q.fire_id r y
      → Dispatches w q c (let (b, fs) = y in (b, es ++ fs))
  Dispatched-returned r es (x, fs) ran (s, none_sent) = record {
    outcome = returned r;
    tries = es;
    ran = ran;
    sent = requests_settled es fs none_sent;
    settled = rw (acks-append es fs, acks_of_attempts q es ran.effects) s;
  }

  Settled-raised : (e : FireError) → Settled c q.fire_id (raised e) (raised e) []
  Settled-raised e = elim c [ none ↦ (refl, refl) | some d ↦ (refl, refl) ]

  and_then-Dispatched :
      (y : Ended FireResult × List Effect)
      → Runs w q 0 y
      → Dispatches w q c (and_then (settle c q.fire_id) y)
  unfolding and_then
  and_then-Dispatched (returned r, es) ran =
      Dispatched-returned r es (settle c q.fire_id r) ran (settle-Settled c q.fire_id r)
  and_then-Dispatched (raised e, es) ran = record {
    outcome = raised e;
    tries = es;
    ran = ran;
    sent = refl;
    settled = (refl, acks_of_attempts q es ran.effects);
  }
  and_then-Dispatched (out_of_fuel, es) ran = absurd (not-out_of_fuel w q ran.ends)

-- A dispatch that passes its three checks sends what its retry loop sends, and returns, raises and
-- acknowledges according to how the loop ended: under durable control the typed result is returned
-- and only a success with a command is acknowledged; a legacy success returns nothing and is
-- acknowledged; a legacy failure is acknowledged as failed and raised; an error of the loop is
-- raised and nothing is acknowledged.
pub dispatch-Dispatched :
    (w : Surroundings) (k : Uuid) (t : Instant) (p : Option PreparedFire) (e : Option ScheduleEntry)
    → slot_matches p t ≡ true
    → entry_matches e k ≡ true
    → (is_some (current_of e) && is_none p) ≡ false
    → Dispatches w (cadence_request w k t p (current_of e)) (current_of e) (dispatch w k t p e)
unfolding dispatch
dispatch-Dispatched w k t p e slot entry prepared =
    rw (slot, entry, prepared)
      (and_then-Dispatched w q (current_of e) (fire_with_retry w q) (fire_with_retry-Runs w q))
  where
    q : FireRequest
    q = cadence_request w k t p (current_of e)
