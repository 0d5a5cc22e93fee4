-- ===== src/WatchStream.antt =====
-- storage/watch.py: the health of a Watch stream, the start of its outage and its reconnect penalty.
-- Times are milliseconds on the monotonic clock. A delay is the one before the random jitter.
pub mod Outages
pub mod Sync
pub mod Synced
pub mod Tests
use z4j_scheduler.Prelude.{
  ℕ, suc, ◌-◌, ◌*◌, ◌^◌, min, Bool, true, false, not, Option, none, some, ltb, leb, ◌&&◌,
  if◌then◌else◌, is_none,
}

-- The fields that the three `_mark_…` methods and the backoff share.
pub record WatchStream : Type 0 where
  pub is_healthy : Bool
  pub unhealthy_since : Option ℕ
  pub healthy_since : Option ℕ
  pub served_since_open : Bool
  pub outage_start_before_open : Option ℕ
  pub reconnect_attempts : ℕ

abbrev pub new_stream : WatchStream
new_stream = record {
  is_healthy = false;
  unhealthy_since = none;
  healthy_since = none;
  served_since_open = false;
  outage_start_before_open = none;
  reconnect_attempts = 0;
}

unfoldable pub unhealthy_for : ℕ → WatchStream → Option ℕ
unhealthy_for now s = elim s.unhealthy_since [ none ↦ none | some t ↦ some (now - t) ]

unfoldable pub mark_healthy : ℕ → WatchStream → WatchStream
mark_healthy now s = if s.is_healthy then record s { unhealthy_since = none } else record s {
  is_healthy = true;
  unhealthy_since = none;
  healthy_since = some now;
  served_since_open = false;
  outage_start_before_open = s.unhealthy_since;
}

unfoldable pub mark_served : WatchStream → WatchStream
mark_served s =
    if s.served_since_open
    then s
    else record s { served_since_open = true; outage_start_before_open = none }

-- `unhealthy_since` after the branch that hands the start of the outage back.
abbrev pub handed_back : ℕ → ℕ → WatchStream → Option ℕ
handed_back floor healthy_for s = elim s.outage_start_before_open [
  | none ↦ s.unhealthy_since
  | some t ↦ if not s.served_since_open && ltb healthy_for floor then some t else s.unhealthy_since
]

-- `self._unhealthy_since` if it is set, and otherwise the clock.
abbrev pub or_now : ℕ → Option ℕ → Option ℕ
or_now now none = some now
or_now now (some t) = some t

-- The last lines of `_mark_unhealthy`.
abbrev pub mark_down : ℕ → Option ℕ → ℕ → WatchStream → WatchStream
mark_down now since attempts s = record {
  is_healthy = false;
  unhealthy_since = or_now now since;
  healthy_since = none;
  served_since_open = s.served_since_open;
  outage_start_before_open = none;
  reconnect_attempts = attempts;
}

-- With `_backoff_reset_after_seconds` and `_unserved_stream_floor_seconds`.
unfoldable pub mark_unhealthy : ℕ → ℕ → ℕ → WatchStream → WatchStream
mark_unhealthy reset_after floor now s = elim s.healthy_since [
  | none ↦ mark_down now s.unhealthy_since s.reconnect_attempts s
  | some t ↦
      if s.is_healthy
      then mark_down now (handed_back floor (now - t) s)
          (if leb reset_after (now - t) then 0 else s.reconnect_attempts) s
      else mark_down now s.unhealthy_since s.reconnect_attempts s
]

-- The delay of `_backoff_or_stop`, from `_BACKOFF_INITIAL`.
unfoldable pub backoff_delay : ℕ → ℕ → ℕ
backoff_delay max_delay attempts = min max_delay (500 * 2 ^ min attempts 6)

unfoldable pub count_attempt : WatchStream → WatchStream
count_attempt s = record s { reconnect_attempts = suc s.reconnect_attempts }
