-- ===== src/Engine/Upkeep.antt =====
-- tick/engine.py: the upkeep of an iteration. The marks that no longer describe a live slot are dropped,
-- and the entries without a next fire get one. No other task runs in between.
use z4j_scheduler.Prelude.{
  ℕ, Bool, false, not, Option, none, some, is_some, List, [], ◌∷◌, codes, ◌&&◌, ◌||◌, if◌then◌else◌,
  non_empty,
}
use z4j_scheduler.Dict.{Dict, Set, get, put, pop, values}
use z4j_scheduler.Entry.{
  Uuid, Instant, ScheduleEntry, schedule_cadence_identity, schedule_definition_changed, cadence_eq,
}
use z4j_scheduler.Cache.Latches.{update_fire_state, token_is}
use z4j_scheduler.Tick.Cron.{Computed, computed, expression_error, broke}
use z4j_scheduler.Tick.Cadence.{Calendars, compute_next_fire}
use z4j_scheduler.Engine.{TickEngine, Marked, Entitlement, entitlement_max_age}
use z4j_scheduler.Engine.Marks.{instant_is, within}
use z4j_scheduler.Engine.Stops.{record_local_quarantine, definition_detail}

-- `for sid in list(d): if ...: d.pop(sid)`, with what is kept.
unfoldable pub keep_where {ℓ} : {V : Type ℓ} → (ℕ → V → Bool) → Dict V → Dict V
keep_where keep [] = []
keep_where keep ((k, v) ∷ d) =
    let rest = keep_where keep d in if keep k v then (k, v) ∷ rest else rest

unfoldable pub keep_ids : (ℕ → Bool) → Set → Set
keep_ids keep [] = []
keep_ids keep (k ∷ s) = let rest = keep_ids keep s in if keep k then k ∷ rest else rest

-- {entry.id: entry for entry in snapshot}
unfoldable pub by_id : List ScheduleEntry → Dict ScheduleEntry → Dict ScheduleEntry
by_id [] d = d
by_id (e ∷ es) d = by_id es (put d e.id e)

abbrev pub in_live : Dict ScheduleEntry → ℕ → Bool
in_live live k = is_some (get live k)

abbrev token_stays : Option ScheduleEntry → Uuid → Bool
token_stays none token = false
token_stays (some e) token = token_is e.control_token token

abbrev slot_stays : Option ScheduleEntry → Instant → Bool
slot_stays none t = false
slot_stays (some e) t = instant_is e.next_fire_at t

unfoldable pub handoff_stays : Option ScheduleEntry → Marked → Bool
handoff_stays none m = false
handoff_stays (some e) m =
    e.is_enabled
    && instant_is e.next_fire_at m.slot
    && cadence_eq (schedule_cadence_identity e) m.cadence

unfoldable pub entitlement_stays : Instant → Option ScheduleEntry → Entitlement → Bool
entitlement_stays now none p = false
entitlement_stays now (some e) p =
    e.is_enabled
    && instant_is e.next_fire_at p.marked.slot
    && within now p.granted_at entitlement_max_age

-- The back-off of a schedule whose cadence was edited.
abbrev edited : Option ScheduleEntry → ScheduleEntry → Bool
edited none prior = false
edited (some e) prior = schedule_definition_changed prior e

-- Whether a handoff of the schedule is dropped, and with it the entitlement.
abbrev handoff_goes : Dict ScheduleEntry → Option Marked → ℕ → Bool
handoff_goes live none k = false
handoff_goes live (some m) k = not (handoff_stays (get live k) m)

abbrev backoff_goes : Dict ScheduleEntry → Option ScheduleEntry → ℕ → Bool
backoff_goes live none k = false
backoff_goes live (some prior) k = edited (get live k) prior

-- `_prune_cadence_mismatch_state`
unfoldable pub prune_cadence_mismatch_state : Dict ScheduleEntry → TickEngine → TickEngine
prune_cadence_mismatch_state live s = record s {
  cadence_mismatch_latched =
      keep_where (λ k token. token_stays (get live k) token) s.cadence_mismatch_latched;
  cadence_renegotiated = keep_ids (in_live live) s.cadence_renegotiated;
}

abbrev pub prune_follower_marks : Dict ScheduleEntry → TickEngine → TickEngine
prune_follower_marks live s = record s {
  follower_parked = keep_where (λ k t. slot_stays (get live k) t) s.follower_parked;
  follower_handoff = keep_where (λ k m. handoff_stays (get live k) m) s.follower_handoff;
  slot_entitled =
      keep_where (λ k p. not (handoff_goes live (get s.follower_handoff k) k)) s.slot_entitled;
}

-- `_prune_slot_entitlements`
unfoldable pub prune_slot_entitlements : Instant → Dict ScheduleEntry → TickEngine → TickEngine
prune_slot_entitlements now live s = record s {
  slot_entitled = keep_where (λ k p. entitlement_stays now (get live k) p) s.slot_entitled;
}

abbrev pub prune_backoff : Dict ScheduleEntry → TickEngine → TickEngine
prune_backoff live s =
    let stays = λ (k : ℕ). in_live live k && not (backoff_goes live (get s.fire_backoff_def k) k) in
    record s {
      fire_error_counts = keep_where (λ k n. stays k) s.fire_error_counts;
      fire_backoff_until = keep_where (λ k t. stays k) s.fire_backoff_until;
      fire_backoff_def = keep_where (λ k e. stays k) s.fire_backoff_def;
      compute_quarantined = keep_where (λ k t. in_live live k) s.compute_quarantined;
    }

abbrev pub has_fire_state : TickEngine → Bool
has_fire_state s =
    non_empty s.fire_error_counts
    || non_empty s.fire_backoff_until
    || non_empty s.compute_quarantined
    || non_empty s.follower_parked
    || non_empty s.follower_handoff
    || non_empty s.slot_entitled
    || non_empty s.cadence_mismatch_latched
    || non_empty s.cadence_renegotiated

-- `_prune_stale_fire_state`
unfoldable pub prune_stale_fire_state : Instant → List ScheduleEntry → TickEngine → TickEngine
prune_stale_fire_state now snapshot s =
    if not (has_fire_state s)
    then s
    else (let live = by_id snapshot [] in
        prune_backoff live (
          prune_slot_entitlements now live
            (prune_follower_marks live (prune_cadence_mismatch_state live s))))

-- The entry gets its next fire, or is disabled later.
unfoldable pub on_next_fire : ScheduleEntry → Computed (Option Instant) → TickEngine → TickEngine
on_next_fire e broke s = record s {
  compute_quarantined = put s.compute_quarantined e.id e.expression;
  pending_disables = put s.pending_disables e.id e;
}
on_next_fire e expression_error s = record s {
  compute_quarantined = pop s.compute_quarantined e.id;
  pending_disables = put s.pending_disables e.id e;
}
on_next_fire e (computed none) s = record s { compute_quarantined = pop s.compute_quarantined e.id }
on_next_fire e (computed (some t)) s = record s {
  compute_quarantined = pop s.compute_quarantined e.id;
  cache = (update_fire_state e.id none (some (some t)) none (some e) s.cache).0;
}

unfoldable pub compute_missing : Calendars → Instant → List ScheduleEntry → TickEngine → TickEngine
compute_missing c clock [] s = s
compute_missing c clock (e ∷ es) s = compute_missing c clock es (
    if is_some e.next_fire_at || not e.is_enabled
    then s
    else on_next_fire e (compute_next_fire c clock e.kind e e.last_fire_at) s)

-- The disables that were queued are recorded.
unfoldable pub record_disables : List ScheduleEntry → TickEngine → TickEngine
record_disables [] s = s
record_disables (e ∷ es) s =
    record_disables es
      (record_local_quarantine e (codes "cadence_definition_invalid") (definition_detail e) s)

-- `_compute_pending_next_fires`
unfoldable pub compute_pending_next_fires : Calendars → Instant → TickEngine → TickEngine
compute_pending_next_fires c clock s =
    let snapshot = values s.cache.entries in
    let s' = compute_missing c clock snapshot (prune_stale_fire_state clock snapshot s) in
    record_disables (values s'.pending_disables) (record s' { pending_disables = [] })
