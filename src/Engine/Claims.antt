-- ===== src/Engine/Claims.antt =====
-- tick/engine.py: the entries that an iteration claims, and gives back.
use z4j_scheduler.Prelude.{
  ℕ, zero, suc, ◌+◌, ◌-◌, ◌*◌, ◌^◌, min, ◌≤◌, ◌<◌, ◌≡◌, refl, ap, ◌∙◌, subst, Bool, true, false,
  not, Option, none, some, List, [], ◌∷◌, length, take, ◌==◌, ==_iff, ◌&&◌, ◌||◌, if◌then◌else◌,
  Bool-cases, inl, inr, arith, All,
}
use native.Mathlib.Decide.{ℕ_discrete}
use native.Mathlib.Nat.{one-le-pow}
use z4j_scheduler.Dict.{Dict, Set, get, put, get_or, contains, add, discard}
use z4j_scheduler.Dict.Laws.{get-put_same, contains-add, contains-discard}
use z4j_scheduler.Entry.{Uuid, Instant, ScheduleEntry}
use z4j_scheduler.Engine.{TickEngine, second, max_fire_backoff, max_dispatch_per_tick}
use z4j_scheduler.Engine.Marks.{
  fire_backoff, back_off_after_fire_error, parked_at, instant_is, is_follower_parked, is_busy,
  unless_parked, runnable_among, claim_for_dispatch, release_undispatched, claim, add_ids,
  discard_ids,
}

-- The entry is not in flight, and not in back-off.
pub record IsRunnable (now : Instant) (s : TickEngine) (e : ScheduleEntry) : Type 0 where
  pub free : contains s.in_flight e.id ≡ false
  pub ready : get_or s.fire_backoff_until e.id now ≤ now

-- Two states with the same entries in flight and in back-off.
record Alike (s s' : TickEngine) : Type 0 where
  flight : s'.in_flight ≡ s.in_flight
  backoff : s'.fire_backoff_until ≡ s.fire_backoff_until

parked_at-Alike :
    (o : Option Instant) (b : Bool) (e : ScheduleEntry) (s : TickEngine)
    → Alike s (parked_at o b e s).0
parked_at-Alike none b e s = record { flight = refl; backoff = refl }
parked_at-Alike (some t) b e s = elim (Bool-cases (not (instant_is e.next_fire_at t) || b)) [
  | inl h ↦ rw h (record { flight = refl; backoff = refl })
  | inr h ↦ rw h (record { flight = refl; backoff = refl })
]

-- What the selection gives, for a state that is alike.
record Selected (now : Instant) (s : TickEngine) (r : TickEngine × List ScheduleEntry)
    : Type 0 where
  alike : Alike s r.0
  all : All (IsRunnable now s) r.1

not_busy-IsRunnable :
    (now : Instant) (e : ScheduleEntry) (s : TickEngine)
    → is_busy now e s ≡ false
    → IsRunnable now s e
unfolding is_busy
not_busy-IsRunnable now e s h = record { free = ground arith; ready = ground arith }

IsRunnable-Alike :
    (now : Instant) (s s' : TickEngine) (e : ScheduleEntry)
    → Alike s s'
    → IsRunnable now s' e
    → IsRunnable now s e
IsRunnable-Alike now s s' e a r = record {
  free = subst (λ f. contains f e.id ≡ false) a.flight r.free;
  ready = subst (λ b. get_or b e.id now ≤ now) a.backoff r.ready;
}

unless_parked-Selected :
    (now : Instant) (s : TickEngine) (e : ScheduleEntry) (x : TickEngine × Bool)
    (rest : TickEngine → TickEngine × List ScheduleEntry)
    → IsRunnable now s e
    → Alike s x.0
    → ((s' : TickEngine) → Alike s s' → Selected now s (rest s'))
    → Selected now s (unless_parked e x rest)
unless_parked-Selected now s e (s', true) rest r a k = k s' a
unless_parked-Selected now s e (s', false) rest r a k = record {
  alike = (k s' a).alike;
  all = (r, (k s' a).all);
}

Alike-trans : {s t u : TickEngine} → Alike s t → Alike t u → Alike s u
Alike-trans a b = record { flight = b.flight ∙ a.flight; backoff = b.backoff ∙ a.backoff }

runnable_among-Selected :
    (leader : Uuid → Bool) (now : Instant) (es : List ScheduleEntry) (s s' : TickEngine)
    → Alike s s'
    → Selected now s (runnable_among leader now es s')
unfolding runnable_among is_follower_parked
runnable_among-Selected leader now [] s s' a = record { alike = a; all = tt }
runnable_among-Selected leader now (e ∷ es) s s' a = elim (Bool-cases (is_busy now e s')) [
  | inl busy ↦ rw (busy, runnable_among) (runnable_among-Selected leader now es s s' a)
  | inr ready ↦
      rw (ready, runnable_among)
        (unless_parked-Selected now s e (is_follower_parked (leader e.project_id) e s') _
          (IsRunnable-Alike now s s' e a (not_busy-IsRunnable now e s' ready))
          (Alike-trans a (parked_at-Alike (get s'.follower_parked e.id) (leader e.project_id) e s'))
          (λ s'' b. runnable_among-Selected leader now es s s'' b))
]

-- Whether an id is among the entries'.
abbrev pub id_in : List ScheduleEntry → ℕ → Bool
id_in [] k = false
id_in (e ∷ es) k = e.id == k || id_in es k

contains-add_ids :
    (es : List ScheduleEntry) (ids : Set) (k : ℕ)
    → contains (add_ids es ids) k ≡ (id_in es k || contains ids k)
contains-add_ids [] ids k = refl
contains-add_ids (e ∷ es) ids k =
    rw (contains-add_ids es (add ids e.id) k, contains-add ids e.id k)
      (swap (e.id == k) (id_in es k) (contains ids k))
  where
    swap : (a b c : Bool) → (b || (if a then true else c)) ≡ ((a || b) || c)
    swap true true c = refl
    swap true false c = refl
    swap false b c = refl

contains-discard_ids :
    (es : List ScheduleEntry) (ids : Set) (k : ℕ)
    → contains (discard_ids es ids) k ≡ (not (id_in es k) && contains ids k)
contains-discard_ids [] ids k = refl
contains-discard_ids (e ∷ es) ids k =
    rw (contains-discard_ids es (discard ids e.id) k, contains-discard ids e.id k)
      (swap (e.id == k) (id_in es k) (contains ids k))
  where
    swap : (a b c : Bool) → (not b && (if a then false else c)) ≡ (not (a || b) && c)
    swap true true c = refl
    swap true false c = refl
    swap false b c = refl

All-take {κ} :
    (P : ScheduleEntry → Type κ) (n : ℕ) (es : List ScheduleEntry) → All P es → All P (take n es)
All-take P zero es h = tt
All-take P (suc n) [] h = tt
All-take P (suc n) (e ∷ es) (p, h) = (p, All-take P n es h)

length-take : (n : ℕ) (es : List ScheduleEntry) → length (take n es) ≤ n
length-take zero es = omega arith
length-take (suc n) [] = omega arith
length-take (suc n) (e ∷ es) = omega (arith, length-take n es)

-- An id among runnable entries is not in flight.
id_in-free :
    (now : Instant) (s : TickEngine) (es : List ScheduleEntry) (k : ℕ)
    → All (IsRunnable now s) es
    → id_in es k ≡ true
    → contains s.in_flight k ≡ false
id_in-free now s [] k h e = cc
id_in-free now s (x ∷ es) k (r, h) e = elim (Bool-cases (x.id == k)) [
  | inl q ↦ subst (λ j. contains s.in_flight j ≡ false) ((==_iff x.id k).0 q) r.free
  | inr n ↦ id_in-free now s es k h (ground arith)
]

release_added :
    (es : List ScheduleEntry) (ids : Set) (k : ℕ)
    → (id_in es k ≡ true → contains ids k ≡ false)
    → contains (discard_ids es (add_ids es ids)) k ≡ contains ids k
release_added es ids k free =
    contains-discard_ids es (add_ids es ids) k
    ∙ ap (λ b. not (id_in es k) && b) (contains-add_ids es ids k)
    ∙ elim (Bool-cases (id_in es k)) [ inl h ↦ rw (h, free h) refl | inr h ↦ rw h refl ]

-- The claim of an iteration, and its release.
pub record Claimed (now : Instant) (s : TickEngine) (s' : TickEngine) (batch : List ScheduleEntry)
    : Type 0 where
  pub runnable : All (IsRunnable now s) batch
  pub few : length batch ≤ max_dispatch_per_tick
  pub marked : (k : ℕ) → contains s'.in_flight k ≡ (id_in batch k || contains s.in_flight k)
  pub released :
      (k : ℕ) → contains (release_undispatched batch s').in_flight k ≡ contains s.in_flight k

-- The claim of an iteration takes at most 256 entries, none in flight or in back-off, the ids in
-- flight after it are those of the claimed entries and those in flight before, and to release all
-- that it claimed leaves in flight what was in flight before.
pub claim-Claimed :
    (leader : Uuid → Bool) (now : Instant) (due : List ScheduleEntry) (s : TickEngine)
    → Claimed now s (claim leader now due s).0 (claim leader now due s).1
unfolding claim claim_for_dispatch release_undispatched
claim-Claimed leader now due s =
    let r = runnable_among-Selected leader now due s s (record { flight = refl; backoff = refl }) in
    let x = runnable_among leader now due s in
    let batch = take max_dispatch_per_tick x.1 in
    let all = All-take (IsRunnable now s) max_dispatch_per_tick x.1 r.all in
    record {
      runnable = all;
      few = length-take max_dispatch_per_tick x.1;
      marked = λ k.
          contains-add_ids batch x.0.in_flight k
          ∙ ap (λ f. id_in batch k || contains f k) r.alike.flight;
      released = λ k.
          ap (λ f. contains (discard_ids batch (add_ids batch f)) k) r.alike.flight
          ∙ release_added batch s.in_flight k (id_in-free now s batch k all);
    }

fire_backoff-bounds :
    (count : ℕ) → (second ≤ fire_backoff count) × (fire_backoff count ≤ max_fire_backoff)
fire_backoff-bounds count =
    bounds (2 ^ min (count - 1) 8) (one-le-pow (min (count - 1) 8) 2 (omega arith))
  where
    bounds :
        (p : ℕ)
        → 1 ≤ p
        → (second ≤ min max_fire_backoff (second * p))
          × (min max_fire_backoff (second * p) ≤ max_fire_backoff)
    bounds p h = (omega arith, omega arith)

-- An entry in back-off is in no batch.
id_in-deadline :
    (now : Instant) (s : TickEngine) (es : List ScheduleEntry) (k : ℕ)
    → All (IsRunnable now s) es
    → now < get_or s.fire_backoff_until k now
    → id_in es k ≡ false
id_in-deadline now s [] k h d = refl
id_in-deadline now s (x ∷ es) k (r, h) d = elim (ℕ_discrete x.id k) [
  | yes q ↦ absurd (omega (arith, subst (λ j. get_or s.fire_backoff_until j now ≤ now) q r.ready))
  | no n ↦ ground (arith, id_in-deadline now s es k h d)
]

get_or-put : {V : Type 0} (d : Dict V) (k : ℕ) (v w : V) → get_or (put d k v) k w ≡ v
unfolding get_or
get_or-put d k v w = rw (get_or, get-put_same d k v) refl

-- After a failed dispatch no claim within the next second takes an entry of that id, and from five
-- minutes after the failure on the back-off has passed, however many failures there were before.
pub back_off_excludes :
    (leader : Uuid → Bool) (clock now : Instant) (e : ScheduleEntry) (due : List ScheduleEntry)
    (s : TickEngine)
    → let s' = back_off_after_fire_error clock e s in
      (now < clock + second → id_in (claim leader now due s').1 e.id ≡ false)
      × (clock + max_fire_backoff ≤ now → get_or s'.fire_backoff_until e.id now ≤ now)
unfolding back_off_after_fire_error
back_off_excludes leader clock now e due s =
    let s' = back_off_after_fire_error clock e s in
    let count = get_or s.fire_error_counts e.id 0 + 1 in
    let at : get_or s'.fire_backoff_until e.id now ≡ clock + fire_backoff count =
      get_or-put s.fire_backoff_until e.id (clock + fire_backoff count) now in
    let (low, high) = fire_backoff-bounds count in
    (
      λ h. id_in-deadline now s' _ e.id (claim-Claimed leader now due s').runnable (omega arith),
      λ h. omega arith,
    )
