-- ===== src/Dispatch/Tests.antt =====
-- dispatch/fire.py: a Brain that is unavailable for one attempt and then accepts.
use z4j_scheduler.Prelude.{
  ℕ, zero, suc, ◌+◌, ◌*◌, ◌/◌, ◌≤◌, ◌<◌, ◌≡◌, ◌↔◌, refl, true, false, none, some, All, arith, ap,
  subst, ℕ_discrete,
}
use native.Mathlib.Decide.{dec_lt}
use z4j_scheduler.Entry.{Uuid, Instant, ScheduleEntry}
use z4j_scheduler.Cache.Fixtures.{row}
use z4j_scheduler.Dispatch.{
  FireResult, FireRequest, StatusCode, FireDisposition, PreparedFire, Reply, replied, rpc_error,
  Surroundings,
}
use z4j_scheduler.Dispatch.Retry.{fire_with_retry}
use z4j_scheduler.Dispatch.Fire.{current_of, cadence_request, dispatch}
use z4j_scheduler.Dispatch.Attempts.{Runs, fire_with_retry-Runs, requests}
use z4j_scheduler.Dispatch.Answers.{Dispatches, dispatch-Dispatched}
use z4j_scheduler.Dispatch.Identity.{dispatch_identity}

abbrev entry : ScheduleEntry
entry = row 1 5 3 true

abbrev prepared : PreparedFire
prepared = record { scheduled_for = 7300000; next_run_at = some 9000000 }

abbrev accepted_result : FireResult
accepted_result = record {
  command_id = some 4;
  error_code = none;
  error_message = none;
  buffered = false;
  disposition = some FireDisposition.accepted;
  acceptance_revision = 6;
  accepted_last_run_at = some 7300000;
  accepted_next_run_at = some 9000000;
  live_control_token = none;
  live_revision = 0;
  live_last_run_at = none;
  live_next_run_at = none;
}

abbrev answer : ℕ → Reply FireResult
answer zero = rpc_error StatusCode.unavailable
answer (suc zero) = rpc_error StatusCode.unavailable
answer (suc (suc n)) = replied accepted_result

-- An identity for each pair of numbers.
abbrev pair_id : Uuid → Instant → Uuid
pair_id k t = (k + t) * (k + t) + k

abbrev brain : Surroundings
brain = record {
  fire_retry_max = 2;
  fire_retry_backoff = 500000;
  fire_schedule = λ q n. answer n;
  healthy_before_retry = λ n. true;
  healthy_after_error = λ n. true;
  jitter = λ n. 1000;
  clock = 7400000;
  uuid4 = 11;
  uuid5 = pair_id;
}

square_suc : (n : ℕ) → suc n * suc n ≡ n * n + n + n + 1
square_suc n = omega arith

square_lt : (s t k : ℕ) → k ≤ s → s < t → s * s + k < t * t
square_lt s zero k h l = absurd (omega arith)
square_lt s (suc t) k h l = elim (ℕ_discrete s t) [
  | yes e ↦ subst (λ m. s * s + k < suc m * suc m) e (omega (arith, square_suc s))
  | no n ↦ omega (arith, square_suc t, square_lt s t k h (omega arith))
]

pair_id_sum : (a b x y : ℕ) → pair_id a x ≡ pair_id b y → a + x ≡ b + y
pair_id_sum a b x y e = elim (ℕ_discrete (a + x) (b + y)) [
  | yes same ↦ same
  | no other ↦ elim (dec_lt (a + x) (b + y)) [
    | yes l ↦ absurd (omega (arith, square_lt (a + x) (b + y) a (omega arith) l))
    | no g ↦ absurd (omega (arith, square_lt (b + y) (a + x) b (omega arith) (omega arith)))
  ]
]

pair_id_inj : (a b : Uuid) (x y : Instant) → pair_id a x ≡ pair_id b y → (a ≡ b) × (x ≡ y)
pair_id_inj a b x y e =
    let s : a + x ≡ b + y = pair_id_sum a b x y e in
    let q : (a + x) * (a + x) ≡ (b + y) * (b + y) = ap (λ n. n * n) s in (omega arith, omega arith)

abbrev brain_schedule : Uuid
brain_schedule = 1

abbrev first_instant : Instant
first_instant = 7300000

abbrev second_instant : Instant
second_instant = 7900000

fire_with_retry-Runs_example :
    Runs brain
      (cadence_request brain 1 7300000 (some prepared) (some entry))
      0
      (fire_with_retry brain (cadence_request brain 1 7300000 (some prepared) (some entry)))
fire_with_retry-Runs_example =
    fire_with_retry-Runs brain (cadence_request brain 1 7300000 (some prepared) (some entry))

dispatch-Dispatched_example :
    Dispatches brain
      (cadence_request brain 1 7300000 (some prepared) (current_of (some entry)))
      (current_of (some entry))
      (dispatch brain 1 7300000 (some prepared) (some entry))
unfolding current_of
dispatch-Dispatched_example =
    dispatch-Dispatched brain 1 7300000 (some prepared) (some entry) refl refl refl

dispatch_identity_example :
    All
      (λ (q : FireRequest).
        All
          (λ (s : FireRequest). (q.fire_id ≡ s.fire_id) ↔ (
            (brain_schedule ≡ brain_schedule)
            × (first_instant / 1000000 ≡ second_instant / 1000000)))
          (requests (dispatch brain 1 7900000 none none).1))
      (requests (dispatch brain 1 7300000 (some prepared) (some entry)).1)
dispatch_identity_example =
    dispatch_identity brain brain 1 1 7300000 7900000 (some prepared) none (some entry) none refl
      pair_id_inj
