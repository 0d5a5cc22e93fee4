-- ===== src/Dispatch/Identity.antt =====
-- dispatch/fire.py: the ids under which `dispatch` sends its requests.
use z4j_scheduler.Prelude.{
  ℕ, zero, suc, ◌*◌, ◌/◌, ◌≡◌, ◌↔◌, ◌∙◌, refl, ap, Option, List, ◌&&◌, All-map, sym, arith,
  Bool-cases, All, inl, inr, subst, is_some, is_none,
}
use mathlib.Core.Path.{ap₂}
use z4j_scheduler.Entry.{Uuid, Instant, ScheduleEntry}
use z4j_scheduler.Dispatch.{FireRequest, FireResult, PreparedFire, Ended, Effect, Surroundings}
use z4j_scheduler.Dispatch.Attempts.{requests, copies}
use z4j_scheduler.Dispatch.Fire.{
  current_of, slot_matches, entry_matches, derive_fire_id, cadence_request, dispatch, truncated,
}
use z4j_scheduler.Dispatch.Answers.{Dispatches, dispatch-Dispatched}

copies-All : (P : FireRequest → Type 0) (n : ℕ) (q : FireRequest) → P q → All P (copies n q)
copies-All P zero q h = tt
copies-All P (suc n) q h = (h, copies-All P n q h)

Dispatches-All :
    (P : FireRequest → Type 0) (w : Surroundings) (q : FireRequest) (c : Option ScheduleEntry)
    (y : Ended (Option FireResult) × List Effect)
    → Dispatches w q c y
    → P q
    → All P (requests y.1)
Dispatches-All P w q c (x, es) d h = rw (d.sent, d.ran.sent) (copies-All P d.ran.count q h)

abbrev CarriesId : Uuid → FireRequest → Type 0
CarriesId f q = q.fire_id ≡ f

-- Whatever the guards say, the requests of a dispatch carry the identity of its slot.
dispatch-All :
    (w : Surroundings) (k : Uuid) (t : Instant) (p : Option PreparedFire) (e : Option ScheduleEntry)
    → All (CarriesId (derive_fire_id w k t)) (requests (dispatch w k t p e).1)
unfolding dispatch
dispatch-All w k t p e = elim (Bool-cases (slot_matches p t)) [
  | inr h ↦ rw h tt
  | inl slot ↦ elim (Bool-cases (entry_matches e k)) [
    | inr h ↦ rw (slot, h) tt
    | inl entry ↦ elim (Bool-cases (is_some (current_of e) && is_none p)) [
      | inl h ↦ rw (slot, entry, h) tt
      | inr h ↦
          Dispatches-All (CarriesId (derive_fire_id w k t)) w
            (cadence_request w k t p (current_of e)) (current_of e) _
            (dispatch-Dispatched w k t p e slot entry h) refl
    ]
  ]
]

-- The identity of a slot tells its schedule and its second, and no more.
derive_fire_id_iff :
    (w : Surroundings) (k l : Uuid) (t u : Instant)
    → ((a b : Uuid) (x y : Instant) → w.uuid5 a x ≡ w.uuid5 b y → (a ≡ b) × (x ≡ y))
    → (derive_fire_id w k t ≡ derive_fire_id w l u) ↔ ((k ≡ l) × (t / 1000000 ≡ u / 1000000))
derive_fire_id_iff w k l t u inj = (
  λ e. let (a, b) = inj k l (truncated t) (truncated u) e in (a, omega arith),
  λ (a, b). ap₂ w.uuid5 a (ap (λ n. n * 1000000) b),
)

abbrev SameFire : Type 0 → FireRequest → FireRequest → Type 0
SameFire X q s = (q.fire_id ≡ s.fire_id) ↔ X

identities_iff :
    (f g : Uuid) (X : Type 0) (qs ss : List FireRequest)
    → (f ≡ g) ↔ X
    → All (CarriesId f) qs
    → All (CarriesId g) ss
    → All (λ q. All (SameFire X q) ss) qs
identities_iff f g X qs ss iff hs ks =
    All-map (CarriesId f) (λ q. All (SameFire X q) ss)
      (λ q h.
        All-map (CarriesId g) (SameFire X q)
          (λ s k. (λ e. iff.0 (sym h ∙ e ∙ k), λ x. h ∙ iff.1 x ∙ sym k)) ss ks)
      qs hs

-- Where the namespaced UUIDs of different schedules or instants differ, any two requests that two
-- dispatches send carry one fire id exactly when the dispatches are for one schedule and one whole
-- second.
pub dispatch_identity :
    (w v : Surroundings) (k l : Uuid) (t u : Instant) (p r : Option PreparedFire)
    (e d : Option ScheduleEntry)
    → v.uuid5 ≡ w.uuid5
    → ((a b : Uuid) (x y : Instant) → w.uuid5 a x ≡ w.uuid5 b y → (a ≡ b) × (x ≡ y))
    → All
        (λ (q : FireRequest).
          All
            (λ (s : FireRequest). (q.fire_id ≡ s.fire_id) ↔ ((k ≡ l) × (t / 1000000 ≡ u / 1000000)))
            (requests (dispatch v l u r d).1))
        (requests (dispatch w k t p e).1)
dispatch_identity w v k l t u p r e d same inj =
    identities_iff (derive_fire_id w k t) (derive_fire_id w l u) _ _ _
      (derive_fire_id_iff w k l t u inj) (dispatch-All w k t p e)
      (subst (λ h. All (CarriesId (h l (truncated u))) (requests (dispatch v l u r d).1)) same
        (dispatch-All v l u r d))
