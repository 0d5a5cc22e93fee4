-- ===== src/Engine/Pruned.antt =====
-- tick/engine.py: the marks that the pruning leaves.
use z4j_scheduler.Prelude.{
  ℕ, ◌+◌, ◌≤◌, ◌≡◌, refl, ap, none, subst, Bool, true, false, Option, some, List, [], ◌∷◌, ◌==◌,
  ==_iff, if◌then◌else◌, Bool-cases, inl, inr, arith, non_empty,
}
use z4j_scheduler.Dict.{Dict, get}
use z4j_scheduler.Entry.{Uuid, Instant, ScheduleEntry, cadence_eq_iff, schedule_cadence_identity}
use z4j_scheduler.Engine.{TickEngine, Marked, Entitlement}
use z4j_scheduler.Engine.Marks.{instant_is}
use z4j_scheduler.Engine.Upkeep.{
  keep_where, by_id, handoff_stays, entitlement_stays, prune_cadence_mismatch_state,
  prune_slot_entitlements, has_fire_state, prune_stale_fire_state,
}

module _ {ℓ} {V : Type ℓ} (keep : ℕ → V → Bool) where
  head_or_rest :
      (j k : ℕ) (w v : V) (o : Option V) (b : Bool)
      → keep j w ≡ true
      → (j == k) ≡ b
      → (if b then some w else o) ≡ some v
      → (o ≡ some v → keep k v ≡ true)
      → keep k v ≡ true
  head_or_rest j k w v o true stays e c rest =
      let z : j ≡ k = (==_iff j k).0 e in
      let y : w ≡ v = cc in subst (λ i. keep i v ≡ true) z (subst (λ u. keep j u ≡ true) y stays)
  head_or_rest j k w v o false stays e c rest = rest c

  get-keep_where :
      (d : Dict V) (k : ℕ) (v : V) → get (keep_where keep d) k ≡ some v → keep k v ≡ true
  unfolding get keep_where
  get-keep_where [] k v h = cc
  get-keep_where ((j, w) ∷ d) k v h = elim (Bool-cases (keep j w)) [
    | inl stays ↦
        head_or_rest j k w v (get (keep_where keep d) k) (j == k) stays refl
          (subst (λ b. get (if b then (j, w) ∷ keep_where keep d else keep_where keep d) k ≡ some v)
            stays h)
          (get-keep_where d k v)
    | inr goes ↦ get-keep_where d k v (
        subst (λ b. get (if b then (j, w) ∷ keep_where keep d else keep_where keep d) k ≡ some v)
          goes h)
  ]

get_empty {ℓ} :
    {V : Type ℓ} (d : Dict V) (k : ℕ) (v : V) → non_empty d ≡ false → get d k ≡ some v → ⊥
unfolding get
get_empty [] k v e h = cc
get_empty (x ∷ d) k v e h = cc

idle-empty :
    (s : TickEngine)
    → has_fire_state s ≡ false
    → (non_empty s.follower_handoff ≡ false) × (non_empty s.slot_entitled ≡ false)
idle-empty s h = ground (arith, h)

-- The row that the snapshot has for an id is enabled and waits for the slot.
pub record IsLive (snapshot : List ScheduleEntry) (k : Uuid) (slot : Instant) : Type 0 where
  pub row : ScheduleEntry
  pub found : get (by_id snapshot []) k ≡ some row
  pub enabled : row.is_enabled ≡ true
  pub waits : row.next_fire_at ≡ some slot

instant_is-eq : (o : Option Instant) (t : Instant) → instant_is o t ≡ true → o ≡ some t
instant_is-eq none t h = cc
instant_is-eq (some u) t h = ap some ((==_iff u t).0 h)

entitlement-IsLive :
    (now : Instant) (snapshot : List ScheduleEntry) (k : Uuid) (p : Entitlement)
    (o : Option ScheduleEntry)
    → get (by_id snapshot []) k ≡ o
    → entitlement_stays now o p ≡ true
    → IsLive snapshot k p.marked.slot × (now ≤ p.granted_at + 900000000)
unfolding entitlement_stays
entitlement-IsLive now snapshot k p none e h = cc
entitlement-IsLive now snapshot k p (some x) e h = (
  record {
    row = x;
    found = e;
    enabled = ground (arith, h);
    waits = instant_is-eq x.next_fire_at p.marked.slot (ground (arith, h));
  },
  ground (arith, h),
)

handoff-IsLive :
    (snapshot : List ScheduleEntry) (k : Uuid) (m : Marked) (o : Option ScheduleEntry)
    → get (by_id snapshot []) k ≡ o
    → handoff_stays o m ≡ true
    → (l : IsLive snapshot k m.slot) × ((
      l.row.kind, l.row.expression, l.row.timezone, l.row.catch_up,
    )
        ≡ m.cadence)
unfolding handoff_stays
handoff-IsLive snapshot k m none e h = cc
handoff-IsLive snapshot k m (some x) e h = (
  record {
    row = x;
    found = e;
    enabled = ground (arith, h);
    waits = instant_is-eq x.next_fire_at m.slot (ground (arith, h));
  },
  (cadence_eq_iff (schedule_cadence_identity x) m.cadence).0 (ground (arith, h)),
)

-- After the pruning, every entitlement is of an id whose row in the snapshot is enabled and waits
-- for the entitled slot, and was granted at most fifteen minutes ago, and every follower handoff is
-- of an id whose row in the snapshot is enabled, waits for the slot of the handoff and has its
-- kind, expression, time zone and catch-up policy.
pub prune-IsLive :
    (now : Instant) (snapshot : List ScheduleEntry) (s : TickEngine) (k : Uuid)
    → let s' = prune_stale_fire_state now snapshot s in
      ((p : Entitlement)
        → get s'.slot_entitled k ≡ some p
        → IsLive snapshot k p.marked.slot × (now ≤ p.granted_at + 900000000))
      × ((m : Marked)
          → get s'.follower_handoff k ≡ some m
          → (l : IsLive snapshot k m.slot) × ((
            l.row.kind, l.row.expression, l.row.timezone, l.row.catch_up,
          )
              ≡ m.cadence))
unfolding prune_stale_fire_state prune_slot_entitlements prune_cadence_mismatch_state
prune-IsLive now snapshot s k = elim (Bool-cases (has_fire_state s)) [
  | inl busy ↦ rw busy (
    λ p h.
        entitlement-IsLive now snapshot k p _ refl
          (get-keep_where (λ k p. entitlement_stays now (get (by_id snapshot []) k) p) _ k p h),
    λ m h.
        handoff-IsLive snapshot k m _ refl
          (get-keep_where (λ k m. handoff_stays (get (by_id snapshot []) k) m) _ k m h),
  )
  | inr idle ↦
      let (handoff, entitled) = idle-empty s idle in
      rw idle (
        λ p h. absurd (get_empty s.slot_entitled k p entitled h),
        λ m h. absurd (get_empty s.follower_handoff k m handoff h),
      )
]
