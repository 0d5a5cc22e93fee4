-- ===== src/Dispatch/Retry.antt =====
-- dispatch/fire.py: `_fire_with_retry`, the loop of attempts of one fire.
use z4j_scheduler.Prelude.{
  ℕ, zero, suc, ◌+◌, ◌-◌, ◌*◌, ◌^◌, Bool, true, false, not, Option, none, some, List, [], ◌∷◌, ◌++◌,
  ◌||◌, max, min, leb, if◌then◌else◌,
}
use z4j_scheduler.Dispatch.{
  FireRequest, FireResult, StatusCode, Reply, replied, rpc_error, other_error, Ended, returned,
  raised, out_of_fuel, rpc_failed, call_failed, Effect, requested, slept, Surroundings,
}

-- exc.code() in _RETRYABLE_STATUS_CODES
abbrev pub is_retryable : StatusCode → Bool
is_retryable StatusCode.unavailable = true
is_retryable StatusCode.deadline_exceeded = true
is_retryable StatusCode.resource_exhausted = true
is_retryable StatusCode.aborted = true
is_retryable c = false

-- A turn of `while True` ends the loop, or goes on with a pending error.
pub data Turn : Type 0 where
  stop : Ended FireResult → Turn
  again : StatusCode → Turn

module _ (w : Surroundings) where
  abbrev pub max_attempts : ℕ
  max_attempts = max 1 (1 + w.fire_retry_max)

  -- The pause after a failed attempt, counted from 1.
  abbrev pub pause_after : ℕ → Effect
  pause_after attempt =
      slept (min (w.fire_retry_backoff * 2 ^ (attempt - 1)) 10000000) (w.jitter attempt)

  unfoldable pub on_reply : ℕ → Reply FireResult → Turn × List Effect
  on_reply attempt (replied r) = (stop (returned r), [])
  on_reply attempt other_error = (stop (raised call_failed), [])
  on_reply attempt (rpc_error c) =
      if not (is_retryable c) || leb max_attempts attempt
      then (stop (raised (rpc_failed c)), [])
      else if not (w.healthy_after_error attempt)
      then (again c, [])
      else (again c, pause_after attempt ∷ [])

  abbrev pub send : FireRequest → ℕ → Turn × List Effect
  send q attempt =
      let (t, es) = on_reply attempt (w.fire_schedule q attempt) in (t, requested q ∷ es)

  -- One turn of the loop after the given number of attempts.
  unfoldable pub turn : FireRequest → ℕ → Option StatusCode → Turn × List Effect
  turn q attempts none = send q (attempts + 1)
  turn q attempts (some c) =
      if not (w.healthy_before_retry attempts)
      then (stop (raised (rpc_failed c)), [])
      else send q (attempts + 1)

  abbrev pub before : List Effect → Ended FireResult × List Effect → Ended FireResult × List Effect
  before es (r, fs) = (r, es ++ fs)

  -- Go on with the loop, or leave it.
  abbrev pub resume_turn :
      Turn × List Effect
      → (StatusCode → Ended FireResult × List Effect)
      → Ended FireResult × List Effect
  resume_turn (stop r, es) loop = (r, es)
  resume_turn (again c, es) loop = before es (loop c)

  unfoldable pub retry : ℕ → FireRequest → ℕ → Option StatusCode → Ended FireResult × List Effect
  retry zero q attempts pending = (out_of_fuel, [])
  retry (suc fuel) q attempts pending =
      resume_turn (turn q attempts pending) (λ c. retry fuel q (attempts + 1) (some c))

  unfoldable pub fire_with_retry : FireRequest → Ended FireResult × List Effect
  fire_with_retry q = retry max_attempts q 0 none
