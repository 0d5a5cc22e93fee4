-- ===== src/Dispatch/Fire.antt =====
-- dispatch/fire.py: `FireDispatcher`. The metrics other than `fires_total` and the log are left out.
use z4j_scheduler.Prelude.{
  ◌*◌, ◌/◌, Bool, true, false, not, Option, none, some, List, [], ◌∷◌, ◌++◌, Text, codes, ◌==◌,
  ◌&&◌, if◌then◌else◌, is_none, is_some, text_eq,
}
use z4j_scheduler.Entry.{Uuid, Instant, ScheduleEntry}
use z4j_scheduler.Dispatch.{
  FireDisposition, legacy_upgrade_required, FireResult, success, PreparedFire, FireRequest, Ended,
  returned, raised, out_of_fuel, slot_mismatch, entry_mismatch, unprepared, fire_dispatch_error,
  FireStatus, AckStatus, ack_success, ack_failed, Effect, counted, acknowledged, Surroundings,
}
use z4j_scheduler.Dispatch.Retry.{fire_with_retry}

abbrev pub manual_trigger_refused_code : Text
manual_trigger_refused_code = codes "manual_trigger_not_accepted"

abbrev pub manual_trigger_refused_message : Text
manual_trigger_refused_message =
    codes
      "this Brain does not accept operator triggers through the scheduler; it fires them itself, so unset scheduler_trigger_url and trigger from the Brain"

abbrev pub manual_trigger_refused : FireResult
manual_trigger_refused = record {
  command_id = none;
  error_code = some manual_trigger_refused_code;
  error_message = some manual_trigger_refused_message;
  buffered = false;
  disposition = none;
  acceptance_revision = 0;
  accepted_last_run_at = none;
  accepted_next_run_at = none;
  live_control_token = none;
  live_revision = 0;
  live_last_run_at = none;
  live_next_run_at = none;
}

abbrev pub refused_as : Option FireDisposition → FireResult → FireResult
refused_as (some legacy_upgrade_required) r = record r {
  error_code = some manual_trigger_refused_code;
  error_message = some manual_trigger_refused_message;
}
refused_as d r = r

abbrev pub manual_fire_refusal_result : FireResult → FireResult
manual_fire_refusal_result r = refused_as r.disposition r

-- scheduled_for.replace(microsecond=0)
abbrev pub truncated : Instant → Instant
truncated t = t / 1000000 * 1000000

-- a or b or "unknown", where an empty text counts as absent
abbrev pub or_else : Option Text → Text → Text
or_else (some (c ∷ s)) t = c ∷ s
or_else (some []) t = t
or_else none t = t

abbrev pub failure_text : FireResult → Text
failure_text r = or_else r.error_message (or_else r.error_code (codes "unknown"))

-- Failures of the acknowledgement are swallowed.
abbrev pub best_effort_ack : Uuid → Option Uuid → AckStatus → Option Text → Effect
best_effort_ack f c s e =
    acknowledged (record { fire_id = f; command_id = c; status = s; error = e })

abbrev pub text_is : Option Text → Text → Bool
text_is none t = false
text_is (some s) t = text_eq s t

-- The entry under durable control, if it is one.
unfoldable pub current_of : Option ScheduleEntry → Option ScheduleEntry
current_of none = none
current_of (some e) = if is_some e.control_token then some e else none

abbrev pub slot_matches : Option PreparedFire → Instant → Bool
slot_matches none t = true
slot_matches (some p) t = p.scheduled_for == t

abbrev pub entry_matches : Option ScheduleEntry → Uuid → Bool
entry_matches none k = true
entry_matches (some e) k = e.id == k

-- The calls after the answer of the retry loop, by whether the schedule is current.
unfoldable pub settle_current : Uuid → FireResult → Ended (Option FireResult) × List Effect
settle_current fire_id r =
    if is_none r.disposition
    then (returned (some r), counted FireStatus.failed ∷ [])
    else if not (success r)
    then (returned (some r), counted FireStatus.failed ∷ [])
    else (
      returned (some r),
      counted (if r.buffered then FireStatus.buffered else FireStatus.delivered)
          ∷ (if is_some r.command_id
              then best_effort_ack fire_id r.command_id ack_success none ∷ []
              else []),
    )

unfoldable pub settle_legacy : Uuid → FireResult → Ended (Option FireResult) × List Effect
settle_legacy fire_id r =
    if success r
    then (
      returned none,
      counted (if r.buffered then FireStatus.buffered else FireStatus.delivered)
          ∷ best_effort_ack fire_id r.command_id ack_success none
          ∷ [],
    )
    else (
      raised (fire_dispatch_error r.error_code r.error_message),
      counted FireStatus.failed
          ∷ best_effort_ack fire_id none ack_failed (some (failure_text r))
          ∷ [],
    )

unfoldable pub settle :
    Option ScheduleEntry → Uuid → FireResult → Ended (Option FireResult) × List Effect
settle none fire_id r = settle_legacy fire_id r
settle (some e) fire_id r = settle_current fire_id r

-- What follows an awaited call, when it returned.
unfoldable pub and_then :
    {A B : Type 0} → (A → Ended B × List Effect) → Ended A × List Effect → Ended B × List Effect
and_then f (returned a, es) = let (b, fs) = f a in (b, es ++ fs)
and_then f (raised e, es) = (raised e, es)
and_then f (out_of_fuel, es) = (out_of_fuel, es)

-- The status of a trigger, then its acknowledgement.
unfoldable pub settle_trigger : Uuid → FireResult → Ended FireResult × List Effect
settle_trigger fire_id r =
    if success r
    then (
      returned r,
      counted (if r.buffered then FireStatus.trigger_buffered else FireStatus.trigger_delivered)
          ∷ best_effort_ack fire_id r.command_id ack_success none
          ∷ [],
    )
    else if text_is r.error_code manual_trigger_refused_code
    then (returned r, counted FireStatus.trigger_failed ∷ [])
    else (
      returned r,
      counted FireStatus.trigger_failed
          ∷ best_effort_ack fire_id none ack_failed (some (failure_text r))
          ∷ [],
    )

module _ (w : Surroundings) where
  abbrev pub derive_fire_id : Uuid → Instant → Uuid
  derive_fire_id k t = w.uuid5 k (truncated t)

  -- The request of a cadence fire. A legacy schedule sends neither entry nor prepared fire, and epoch 0.
  abbrev pub cadence_request :
      Uuid → Instant → Option PreparedFire → Option ScheduleEntry → FireRequest
  cadence_request k t p current = record {
    schedule_id = k;
    fire_id = derive_fire_id k t;
    scheduled_for = t;
    fired_at = w.clock;
    triggered_by_user_id = [];
    schedule_entry = current;
    prepared_fire = if is_some current then p else none;
    scheduler_protocol_epoch = if is_some current then 1 else 0;
  }

  unfoldable pub dispatch :
      Uuid
      → Instant
      → Option PreparedFire
      → Option ScheduleEntry
      → Ended (Option FireResult) × List Effect
  dispatch k t p entry =
      if not (slot_matches p t)
      then (raised slot_mismatch, [])
      else if not (entry_matches entry k)
      then (raised entry_mismatch, [])
      else if is_some (current_of entry) && is_none p
      then (raised unprepared, [])
      else and_then (settle (current_of entry) (derive_fire_id k t))
          (fire_with_retry w (cadence_request k t p (current_of entry)))

  abbrev pub trigger_request : Uuid → Text → FireRequest
  trigger_request k user = record {
    schedule_id = k;
    fire_id = w.uuid4;
    scheduled_for = w.clock;
    fired_at = w.clock;
    triggered_by_user_id = user;
    schedule_entry = none;
    prepared_fire = none;
    scheduler_protocol_epoch = 0;
  }

  unfoldable pub trigger_now : Uuid → ScheduleEntry → Text → Ended FireResult × List Effect
  trigger_now k e user =
      if not (e.id == k)
      then (raised entry_mismatch, [])
      else if is_some e.control_token
      then (returned manual_trigger_refused, counted FireStatus.trigger_failed ∷ [])
      else and_then (λ r. settle_trigger w.uuid4 (manual_fire_refusal_result r))
          (fire_with_retry w (trigger_request k user))
