-- ===== src/Engine/Marks.antt =====
-- tick/engine.py: the back-off after a failed fire, the parking of a follower's slot, and the
-- entitlement of a slot that was judged to be on time.
use z4j_scheduler.Prelude.{
  ℕ, ◌+◌, ◌-◌, ◌*◌, ◌^◌, min, Bool, true, false, not, Option, none, some, List, [], ◌∷◌, ◌==◌, ◌&&◌,
  ◌||◌, leb, ltb, if◌then◌else◌, take, non_empty,
}
use z4j_scheduler.Dict.{Set, get, put, pop, get_or, contains, add, discard}
use z4j_scheduler.Entry.{Uuid, Instant, ScheduleEntry, cadence_eq, schedule_cadence_identity}
use z4j_scheduler.Engine.{
  TickEngine, Marked, Entitlement, second, follower_recheck, max_fire_backoff, entitlement_max_age,
  max_dispatch_per_tick, promotion_grace_for,
}

-- min(300, 1 * 2 ** min(count - 1, 8)) seconds
abbrev pub fire_backoff : ℕ → ℕ
fire_backoff count = min max_fire_backoff (second * 2 ^ min (count - 1) 8)

-- The clock is read when the dispatch has failed.
unfoldable pub back_off_after_fire_error : Instant → ScheduleEntry → TickEngine → TickEngine
back_off_after_fire_error clock e s =
    let count = get_or s.fire_error_counts e.id 0 + 1 in
    record s {
      fire_error_counts = put s.fire_error_counts e.id count;
      fire_backoff_until = put s.fire_backoff_until e.id (clock + fire_backoff count);
      fire_backoff_def = put s.fire_backoff_def e.id e;
    }

-- The state after a clean fire, and at the start of a quarantine.
unfoldable pub clear_fire_errors : Uuid → TickEngine → TickEngine
clear_fire_errors k s = record s {
  fire_error_counts = pop s.fire_error_counts k;
  fire_backoff_until = pop s.fire_backoff_until k;
  fire_backoff_def = pop s.fire_backoff_def k;
}

abbrev pub instant_is : Option Instant → Instant → Bool
instant_is none t = false
instant_is (some u) t = u == t

abbrev pub marked_of : ScheduleEntry → Instant → Marked
marked_of e t = record { slot = t; cadence = schedule_cadence_identity e }

-- `a == b` on pairs of a slot and a cadence.
unfoldable pub marked_eq : Marked → Marked → Bool
marked_eq a b = a.slot == b.slot && cadence_eq a.cadence b.cadence

abbrev pub park_at : ScheduleEntry → Option Instant → TickEngine → TickEngine
park_at e none s = s
park_at e (some t) s = record s {
  follower_parked = put s.follower_parked e.id t;
  follower_handoff = put s.follower_handoff e.id (marked_of e t);
}

-- `_advance_after_fire(entry, last_fire_at=None)`, the only call of it: a follower parks the slot.
unfoldable pub park : ScheduleEntry → TickEngine → TickEngine
park e s = park_at e e.next_fire_at s

-- `_is_follower_parked`, which drops a mark that is stale.
abbrev pub parked_at : Option Instant → Bool → ScheduleEntry → TickEngine → TickEngine × Bool
parked_at none is_leader e s = (s, false)
parked_at (some t) is_leader e s =
    if not (instant_is e.next_fire_at t) || is_leader
    then (record s { follower_parked = pop s.follower_parked e.id }, false)
    else (s, true)

unfoldable pub is_follower_parked : Bool → ScheduleEntry → TickEngine → TickEngine × Bool
is_follower_parked is_leader e s = parked_at (get s.follower_parked e.id) is_leader e s

abbrev pub is_mark : Option Marked → Marked → Bool
is_mark none m = false
is_mark (some n) m = marked_eq n m

abbrev pub was_follower_handoff : ScheduleEntry → Instant → TickEngine → Bool
was_follower_handoff e t s = is_mark (get s.follower_handoff e.id) (marked_of e t)

unfoldable pub effective_grace : ScheduleEntry → Instant → TickEngine → ℕ
effective_grace e t s =
    if was_follower_handoff e t s
    then promotion_grace_for s.leader_heartbeat follower_recheck s.on_time_grace
    else s.on_time_grace

-- now - t <= d, where `t` may be in the future
abbrev pub within : Instant → Instant → ℕ → Bool
within now t d = leb now (t + d)

-- When the entitlement of the slot was granted, and whether it still stands.
unfoldable pub prior_grant : Option Entitlement → Marked → Instant → Instant × Bool
prior_grant none m now = (now, false)
prior_grant (some p) m now =
    if marked_eq p.marked m
    then (p.granted_at, within now p.granted_at entitlement_max_age)
    else (now, false)

-- The test whether a slot is fired whatever the policy says, which grants the entitlement.
unfoldable pub judge : Instant → ScheduleEntry → Instant → TickEngine → TickEngine × Bool
judge now e t s =
    let (granted_at, entitled) = prior_grant (get s.slot_entitled e.id) (marked_of e t) now in
    if within now t (effective_grace e t s)
    then (
      record s {
        slot_entitled =
            put s.slot_entitled e.id (record { marked = marked_of e t; granted_at = granted_at });
      },
      true,
    )
    else (s, entitled)

-- `_consume_follower_handoff`
unfoldable pub consume_follower_handoff : Uuid → Bool → TickEngine → TickEngine
consume_follower_handoff k was_handoff s = record s {
  follower_handoff = if was_handoff then pop s.follower_handoff k else s.follower_handoff;
  slot_entitled = pop s.slot_entitled k;
}

-- An entry in flight or in back-off is passed over.
unfoldable pub is_busy : Instant → ScheduleEntry → TickEngine → Bool
is_busy now e s = contains s.in_flight e.id || ltb now (get_or s.fire_backoff_until e.id now)

abbrev pub unless_parked :
    ScheduleEntry
    → TickEngine × Bool
    → (TickEngine → TickEngine × List ScheduleEntry)
    → TickEngine × List ScheduleEntry
unless_parked e (s, true) rest = rest s
unless_parked e (s, false) rest = let (s', es) = rest s in (s', e ∷ es)

-- The entries among the due ones that may be dispatched now, with the stale marks dropped. The gate is
-- asked for the entries that reach it.
unfoldable pub runnable_among :
    (Uuid → Bool) → Instant → List ScheduleEntry → TickEngine → TickEngine × List ScheduleEntry
runnable_among leader now [] s = (s, [])
runnable_among leader now (e ∷ es) s = elim (is_busy now e s) [
  | true ↦ runnable_among leader now es s
  | false ↦
      unless_parked e (is_follower_parked (leader e.project_id) e s)
        (λ s. runnable_among leader now es s)
]

abbrev pub add_ids : List ScheduleEntry → Set → Set
add_ids [] ids = ids
add_ids (e ∷ es) ids = add_ids es (add ids e.id)

-- `_claim_for_dispatch`
unfoldable pub claim_for_dispatch : List ScheduleEntry → TickEngine → TickEngine
claim_for_dispatch runnable s = record s {
  in_flight = add_ids runnable s.in_flight;
  fan_out_idle = if non_empty runnable then false else s.fan_out_idle;
}

abbrev pub discard_ids : List ScheduleEntry → Set → Set
discard_ids [] ids = ids
discard_ids (e ∷ es) ids = discard_ids es (discard ids e.id)

-- `_release_undispatched`, on what is left of the queue.
unfoldable pub release_undispatched : List ScheduleEntry → TickEngine → TickEngine
release_undispatched queue s = record s {
  in_flight = discard_ids queue s.in_flight;
  fan_out_idle = true;
}

-- The claim of an iteration, for the due entries.
unfoldable pub claim :
    (Uuid → Bool) → Instant → List ScheduleEntry → TickEngine → TickEngine × List ScheduleEntry
claim leader now due s =
    let (s', runnable) = runnable_among leader now due s in
    let batch = take max_dispatch_per_tick runnable in (claim_for_dispatch batch s', batch)
