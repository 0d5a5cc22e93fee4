-- ===== src/Cache/Cursor.antt =====
-- storage/cache.py: the compare-and-set of a Brain-committed cursor.
use z4j_scheduler.Prelude.{
  ℕ, Bool, true, false, not, ◌&&◌, ◌||◌, Option, none, some, leb, ◌==◌, if◌then◌else◌,
}
use z4j_scheduler.Dict.{get, put}
use z4j_scheduler.Entry.{Uuid, Instant, ScheduleEntry, schedule_brain_payload}
use z4j_scheduler.Cache.State.{Method, ok, raise, cursor_not_increasing, set_changed}
use z4j_scheduler.Cache.Latches.{token_is}

-- `a == b` on times that may be `None`.
abbrev pub time_eq : Option Instant → Option Instant → Bool
time_eq none none = true
time_eq none (some b) = false
time_eq (some a) none = false
time_eq (some a) (some b) = a == b

abbrev pub cursor_is : ScheduleEntry → Option Instant → Option Instant → Bool
cursor_is e last next = time_eq e.last_fire_at last && time_eq e.next_fire_at next

-- `last or next or anchor`. A time is never falsy.
abbrev pub first_time : Option Instant → Option Instant → Instant → Instant
first_time (some t) next anchor = t
first_time none (some t) anchor = t
first_time none none anchor = anchor

-- The arguments of `apply_cursor_transition`.
pub record Transition : Type 0 where
  pub expected_control_token : Uuid
  pub expected_revision : ℕ
  pub expected_last_run_at : Option Instant
  pub expected_next_run_at : Option Instant
  pub committed_revision : ℕ
  pub committed_last_run_at : Option Instant
  pub committed_next_run_at : Option Instant

-- The row after a transition.
unfoldable pub advance_row : Transition → ScheduleEntry → ScheduleEntry
advance_row t e = record e {
  last_fire_at = t.committed_last_run_at;
  next_fire_at = t.committed_next_run_at;
  anchor_at = first_time t.committed_last_run_at t.committed_next_run_at e.anchor_at;
  schedule_revision = t.committed_revision;
}

unfoldable pub apply_cursor_transition : Uuid → Transition → Method Bool
apply_cursor_transition k t c =
    if t.expected_revision == 0 || leb t.committed_revision t.expected_revision
    then (c, raise cursor_not_increasing)
    else elim (get c.entries k) [
      | none ↦ (c, ok false)
      | some e ↦
          if not (token_is e.control_token t.expected_control_token)
          then (c, ok false)
          else if e.schedule_revision == t.committed_revision
          then (c, ok (cursor_is e t.committed_last_run_at t.committed_next_run_at))
          else if not (e.schedule_revision == t.expected_revision)
              || not (cursor_is e t.expected_last_run_at t.expected_next_run_at)
          then (c, ok false)
          else (
            set_changed (record c {
              entries = put c.entries k (advance_row t e);
              id_revisions = put c.id_revisions k t.committed_revision;
              brain_payloads = put c.brain_payloads k (schedule_brain_payload (advance_row t e));
            }),
            ok true,
          )
    ]
