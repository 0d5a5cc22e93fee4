-- ===== src/WatchStream/Outages.antt =====
-- storage/watch.py: how long an outage lasts and how the reconnect penalty grows.
use z4j_scheduler.Prelude.{
  ℕ, suc, ◌+◌, ◌-◌, ◌*◌, ◌^◌, ◌≤◌, ◌<◌, ◌≡◌, min, Bool, true, false, none, some, List, [], ◌∷◌,
  length, All, arith, if◌then◌else◌, is_some,
}
use native.Mathlib.Nat.{pow-le-pow_right, mul-le-mul_left}
use z4j_scheduler.WatchStream.{
  WatchStream, mark_healthy, mark_served, mark_unhealthy, count_attempt, backoff_delay,
}

-- The fields agree: a healthy stream has no outage and a start of its health; one that is down has
-- neither a start of its health nor a kept outage.
pub record IsConsistent (s : WatchStream) : Type 0 where
  pub healthy : s.is_healthy ≡ true → (s.unhealthy_since ≡ none) × (is_some s.healthy_since ≡ true)
  pub down : s.is_healthy ≡ false → (s.healthy_since ≡ none) × (s.outage_start_before_open ≡ none)

IsConsistent-mark_healthy :
    (now : ℕ) (s : WatchStream) → IsConsistent s → IsConsistent (mark_healthy now s)
unfolding mark_healthy
IsConsistent-mark_healthy now s h = record {
  healthy = ground (arith, h.healthy);
  down = ground arith;
}

IsConsistent-mark_served : (s : WatchStream) → IsConsistent s → IsConsistent (mark_served s)
unfolding mark_served
IsConsistent-mark_served s h = record {
  healthy = ground (arith, h.healthy);
  down = ground (arith, h.down);
}

IsConsistent-mark_unhealthy :
    (reset_after floor now : ℕ) (s : WatchStream)
    → IsConsistent (mark_unhealthy reset_after floor now s)
unfolding mark_unhealthy
IsConsistent-mark_unhealthy reset_after floor now s = record {
  healthy = ground arith;
  down = ground arith;
}

-- The three marks of a stream keep its fields consistent: a healthy stream has no outage and a
-- start of its health, and one that is down has neither a start of its health nor a kept outage.
pub marks-IsConsistent :
    (reset_after floor now : ℕ) (s : WatchStream)
    → IsConsistent s
    → IsConsistent (mark_healthy now s)
      × IsConsistent (mark_served s)
      × IsConsistent (mark_unhealthy reset_after floor now s)
marks-IsConsistent reset_after floor now s h = (
  IsConsistent-mark_healthy now s h,
  IsConsistent-mark_served s h,
  IsConsistent-mark_unhealthy reset_after floor now s,
)

-- One reconnect: the stream opens, delivers frames or none, and drops, and the loop waits.
pub record Reconnect : Type 0 where
  pub opened : ℕ
  pub dropped : ℕ
  pub served : Bool

module _ (reset_after floor : ℕ) where
  unfoldable pub reconnect : Reconnect → WatchStream → WatchStream
  reconnect r s =
      let open_stream = mark_healthy r.opened s in
      count_attempt (
        mark_unhealthy reset_after floor r.dropped
          (if r.served then mark_served open_stream else open_stream))

  unfoldable pub reconnects : List Reconnect → WatchStream → WatchStream
  reconnects [] s = s
  reconnects (r ∷ rs) s = reconnects rs (reconnect r s)

  -- A stream that dropped without a frame, sooner than both bounds.
  abbrev pub IsRefused : Reconnect → Type 0
  IsRefused r =
      (r.served ≡ false) × (r.dropped - r.opened < floor) × (r.dropped - r.opened < reset_after)

  refused-eq :
      (r : Reconnect) (s : WatchStream) (t : ℕ)
      → IsRefused r
      → s.is_healthy ≡ false
      → s.unhealthy_since ≡ some t
      → ((reconnect r s).is_healthy ≡ false)
        × ((reconnect r s).unhealthy_since ≡ some t)
        × ((reconnect r s).reconnect_attempts ≡ suc s.reconnect_attempts)
  unfolding reconnect mark_healthy mark_unhealthy mark_served count_attempt
  refused-eq r s t refused down since = ground arith

  -- For a stream that is down, with an outage since an instant, any number of reconnects that drop
  -- without a frame, sooner than both the floor and the reset interval, keeps the start of the
  -- outage, and the reconnect attempts grow by that number.
  pub refusals-keep :
      (rs : List Reconnect) (s : WatchStream) (t : ℕ)
      → All IsRefused rs
      → s.is_healthy ≡ false
      → s.unhealthy_since ≡ some t
      → ((reconnects rs s).unhealthy_since ≡ some t)
        × ((reconnects rs s).reconnect_attempts ≡ s.reconnect_attempts + length rs)
  unfolding reconnects
  refusals-keep [] s t refused down since = (since, omega arith)
  refusals-keep (r ∷ rs) s t refused down since =
      let step = refused-eq r s t refused.0 down since in
      let rest = refusals-keep rs (reconnect r s) t refused.1 step.0 step.1 in
      (rest.0, omega (arith, rest.1, step.2))

  -- When a stream that was down opens, delivers a frame and drops, its outage starts at the drop.
  pub served_drop :
      (r : Reconnect) (s : WatchStream)
      → r.served ≡ true
      → s.is_healthy ≡ false
      → (reconnect r s).unhealthy_since ≡ some r.dropped
  unfolding reconnect mark_healthy mark_unhealthy mark_served count_attempt
  served_drop r s served down = ground arith

-- The reconnect delay before its jitter never falls as the attempts grow, and never exceeds the
-- configured maximum.
pub delay-bounds :
    (max_delay m n : ℕ)
    → m ≤ n
    → (backoff_delay max_delay m ≤ backoff_delay max_delay n)
      × (backoff_delay max_delay n ≤ max_delay)
unfolding backoff_delay
delay-bounds max_delay m n h =
    let powers : 500 * 2 ^ min m 6 ≤ 500 * 2 ^ min n 6 =
      mul-le-mul_left 500
        (pow-le-pow_right {n = 2} (omega arith) {i = min m 6} {j = min n 6} (omega (arith, h))) in
    (omega (arith, powers), omega arith)
