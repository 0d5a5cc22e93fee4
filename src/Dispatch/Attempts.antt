-- ===== src/Dispatch/Attempts.antt =====
-- dispatch/fire.py: how `_fire_with_retry` ends, and what it sent.
use z4j_scheduler.Prelude.{
  ℕ, zero, suc, ◌+◌, ◌≤◌, ◌<◌, ◌≡◌, refl, true, false, Option, none, some, List, [], ◌∷◌, ◌++◌,
  arith, Bool-cases, All, inl, inr, ap, subst, ℕ_discrete, All-append, le→leb, gt→leb,
}
use native.Mathlib.Decide.{dec_le}
use z4j_scheduler.Dispatch.{
  FireRequest, FireResult, StatusCode, Reply, replied, rpc_error, other_error, Ended, returned,
  raised, out_of_fuel, rpc_failed, call_failed, Effect, requested, slept, counted, acknowledged,
  Surroundings,
}
use z4j_scheduler.Dispatch.Retry.{
  is_retryable, Turn, stop, again, max_attempts, on_reply, turn, resume_turn, before, retry,
  fire_with_retry,
}

-- The requests that effects send.
abbrev pub requests : List Effect → List FireRequest
requests [] = []
requests (requested q ∷ es) = q ∷ requests es
requests (slept a b ∷ es) = requests es
requests (counted s ∷ es) = requests es
requests (acknowledged a ∷ es) = requests es

pub requests-append : (es fs : List Effect) → requests (es ++ fs) ≡ requests es ++ requests fs
requests-append [] fs = refl
requests-append (requested q ∷ es) fs = ap (λ rs. q ∷ rs) (requests-append es fs)
requests-append (slept a b ∷ es) fs = requests-append es fs
requests-append (counted s ∷ es) fs = requests-append es fs
requests-append (acknowledged a ∷ es) fs = requests-append es fs

-- An effect of the loop: a request that is the given one, or a pause of at most ten seconds before jitter.
abbrev pub IsAttempt : FireRequest → Effect → Type 0
IsAttempt q (requested r) = r ≡ q
IsAttempt q (slept d j) = d ≤ 10000000
IsAttempt q (counted s) = ⊥
IsAttempt q (acknowledged a) = ⊥

abbrev pub copies : ℕ → FireRequest → List FireRequest
copies zero q = []
copies (suc n) q = q ∷ copies n q

module _ (w : Surroundings) (q : FireRequest) where
  -- How the loop may end after its attempt `n`.
  pub data Ends (n : ℕ) : Ended FireResult → Type 0 where
    ends_replied : {r : FireResult} → w.fire_schedule q n ≡ replied r → Ends n (returned r)
    ends_broken : w.fire_schedule q n ≡ other_error → Ends n (raised call_failed)
    ends_permanent :
        {c : StatusCode}
        → w.fire_schedule q n ≡ rpc_error c
        → is_retryable c ≡ false
        → Ends n (raised (rpc_failed c))
    ends_exhausted :
        {c : StatusCode}
        → w.fire_schedule q n ≡ rpc_error c
        → n ≡ max_attempts w
        → Ends n (raised (rpc_failed c))
    ends_withheld :
        {c : StatusCode}
        → w.fire_schedule q n ≡ rpc_error c
        → n < max_attempts w
        → w.healthy_before_retry n ≡ false
        → Ends n (raised (rpc_failed c))

  -- The attempt `n` failed in a way that is retried.
  pub record IsRetried (n : ℕ) : Type 0 where
    pub code : StatusCode
    pub answer : w.fire_schedule q n ≡ rpc_error code
    pub transient : is_retryable code ≡ true
    pub watched : w.healthy_before_retry n ≡ true

  -- A run of the loop from attempt `a`: `count` more attempts were sent, all with one request.
  pub record Ran (a : ℕ) (o : Ended FireResult) (es : List Effect) : Type 0 where
    pub count : ℕ
    pub some_sent : 1 ≤ a + count
    pub bounded : a + count ≤ max_attempts w
    pub sent : requests es ≡ copies count q
    pub effects : All (IsAttempt q) es
    pub ends : Ends (a + count) o
    pub retried : (m : ℕ) → 1 ≤ m → a ≤ m → m < a + count → IsRetried m

  pub not-out_of_fuel : {n : ℕ} → Ends n out_of_fuel → ⊥
  not-out_of_fuel h = elim h [ ]

  abbrev Pending : ℕ → Option StatusCode → Type 0
  Pending a none = a ≡ 0
  Pending a (some c) = (1 ≤ a) × (w.fire_schedule q a ≡ rpc_error c) × (is_retryable c ≡ true)

  abbrev AfterTurn : ℕ → Turn × List Effect → Type 0
  AfterTurn a (stop o, es) = Ran a o es
  AfterTurn a (again c, es) =
      (requests es ≡ q ∷ [])
      × (All (IsAttempt q) es)
      × (Pending (a + 1) (some c))
      × (1 ≤ a → IsRetried a)
      × (a + 1 < max_attempts w)

  abbrev once : ℕ → Turn × List Effect → Turn × List Effect
  once a (t, es) = (t, requested q ∷ es)

  retried_once : (a m : ℕ) → (1 ≤ a → IsRetried a) → 1 ≤ m → a ≤ m → m < a + 1 → IsRetried m
  retried_once a m back h l u =
      let e : a ≡ m = omega arith in subst IsRetried e (back (omega arith))

  last_turn :
      (a : ℕ) {o : Ended FireResult}
      → (1 ≤ a → IsRetried a)
      → a < max_attempts w
      → Ends (a + 1) o
      → Ran a o (requested q ∷ [])
  last_turn a back below ends = record {
    count = 1;
    some_sent = omega arith;
    bounded = omega arith;
    sent = refl;
    effects = (refl, tt);
    ends = ends;
    retried = λ m h l u. retried_once a m back h l u;
  }

  on_reply-AfterTurn :
      (a : ℕ) (r : Reply FireResult)
      → w.fire_schedule q (a + 1) ≡ r
      → (1 ≤ a → IsRetried a)
      → a < max_attempts w
      → AfterTurn a (once a (on_reply w (a + 1) r))
  unfolding on_reply
  on_reply-AfterTurn a (replied r) e back below = last_turn a back below (ends_replied e)
  on_reply-AfterTurn a other_error e back below = last_turn a back below (ends_broken e)
  on_reply-AfterTurn a (rpc_error c) e back below = elim (Bool-cases (is_retryable c)) [
    | inr permanent ↦ rw permanent (last_turn a back below (ends_permanent e permanent))
    | inl transient ↦ elim (dec_le (max_attempts w) (a + 1)) [
      | yes last ↦
          rw (transient, le→leb (max_attempts w) (a + 1) last)
            (last_turn a back below (ends_exhausted e (omega arith)))
      | no more ↦ elim (Bool-cases (w.healthy_after_error (a + 1))) [
        | inl up ↦
            rw (transient, gt→leb (max_attempts w) (a + 1) (omega arith), up)
              (refl, (refl, (omega arith, tt)), (omega arith, e, transient), back, omega arith)
        | inr down ↦
            rw (transient, gt→leb (max_attempts w) (a + 1) (omega arith), down)
              (refl, (refl, tt), (omega arith, e, transient), back, omega arith)
      ]
    ]
  ]

  turn-AfterTurn :
      (a : ℕ) (p : Option StatusCode)
      → Pending a p
      → a < max_attempts w
      → AfterTurn a (turn w q a p)
  unfolding turn
  turn-AfterTurn a none first below =
      on_reply-AfterTurn a (w.fire_schedule q (a + 1)) refl (λ h. absurd (omega arith)) below
  turn-AfterTurn a (some c) (h, e, t) below = elim (Bool-cases (w.healthy_before_retry a)) [
    | inl up ↦ rw up (
        on_reply-AfterTurn a (w.fire_schedule q (a + 1)) refl
          (λ l. record { code = c; answer = e; transient = t; watched = up }) below)
    | inr down ↦ rw down (record {
      count = 0;
      some_sent = omega arith;
      bounded = omega arith;
      sent = refl;
      effects = tt;
      ends = let z : a ≡ a + 0 = omega arith in rw (← z) (ends_withheld e below down);
      retried = λ m s l u. absurd (omega arith);
    })
  ]

  -- The loop goes on after a turn that sent a request.
  Ran-again :
      (a : ℕ) (c : StatusCode) {o : Ended FireResult} (es fs : List Effect)
      → AfterTurn a (again c, es)
      → Ran (a + 1) o fs
      → Ran a o (es ++ fs)
  Ran-again a c es fs (sent, attempts, pending, back, below) r =
      let shift : a + 1 + r.count ≡ a + suc r.count = omega arith in
      record {
        count = suc r.count;
        some_sent = omega arith;
        bounded = omega (arith, r.bounded);
        sent = rw (requests-append es fs, sent, r.sent) refl;
        effects = All-append (IsAttempt q) es fs attempts r.effects;
        ends = rw (← shift) r.ends;
        retried = λ m h l u. elim (ℕ_discrete a m) [
          | yes e ↦ subst IsRetried e (back (omega arith))
          | no later ↦ r.retried m h (omega arith) (omega arith)
        ];
      }

  -- A run of the loop, with how it ended and what it did.
  abbrev pub Runs : ℕ → Ended FireResult × List Effect → Type 0
  Runs a (o, es) = Ran a o es

  Ran-before :
      (a : ℕ) (c : StatusCode) (es : List Effect) (rest : Ended FireResult × List Effect)
      → AfterTurn a (again c, es)
      → Runs (a + 1) rest
      → Runs a (before w es rest)
  Ran-before a c es (o, fs) h r = Ran-again a c es fs h r

  resume_turn-Runs :
      (a : ℕ) (t : Turn × List Effect) (loop : StatusCode → Ended FireResult × List Effect)
      → AfterTurn a t
      → ((c : StatusCode)
          → Pending (a + 1) (some c)
          → a + 1 < max_attempts w
          → Runs (a + 1) (loop c))
      → Runs a (resume_turn w t loop)
  resume_turn-Runs a (stop o, es) loop h k = h
  resume_turn-Runs a (again c, es) loop (s, all, pending, back, below) k =
      Ran-before a c es (loop c) (s, all, pending, back, below) (k c pending below)

  retry-Runs :
      (fuel a : ℕ) (p : Option StatusCode)
      → a + fuel ≡ max_attempts w
      → 1 ≤ fuel
      → Pending a p
      → Runs a (retry w fuel q a p)
  unfolding retry
  retry-Runs zero a p e h pending = absurd (omega arith)
  retry-Runs (suc fuel) a p e h pending =
      resume_turn-Runs a (turn w q a p) _ (turn-AfterTurn a p pending (omega arith))
        (λ c next below. retry-Runs fuel (a + 1) (some c) (omega arith) (omega arith) next)

  -- The retry loop ends, after at least one attempt and at most the configured number of them, all
  -- with the one request, with pauses of at most ten seconds before jitter; it returns the reply to
  -- the last attempt, or raises the error of the last attempt for which no retry was due, and each
  -- attempt before the last failed with a transient code and found the watch stream healthy before
  -- the retry.
  pub fire_with_retry-Runs : Runs 0 (fire_with_retry w q)
  unfolding fire_with_retry
  fire_with_retry-Runs = retry-Runs (max_attempts w) 0 none (omega arith) (omega arith) refl
