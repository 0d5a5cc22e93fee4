-- ===== src/Cache/Rows.antt =====
-- storage/cache.py: storing and removing a row with the count of its project.
pub mod Counts
use z4j_scheduler.Prelude.{ℕ, ◌+◌, ◌-◌, Option, none, some, ◌==◌, if◌then◌else◌}
use z4j_scheduler.Dict.{Dict, get, put, pop, get_or}
use z4j_scheduler.Entry.{Uuid, ScheduleEntry}
use z4j_scheduler.Cache.State.{Cache, Method, ok, raise, key_error, ◌>>=◌, ◌>>◌}

-- A count that reaches zero loses its key.
unfoldable pub decremented : Dict ℕ → Uuid → ℕ → Dict ℕ
decremented counts p n = if n - 1 == 0 then pop counts p else put counts p (n - 1)

-- A read of a missing key raises.
unfoldable pub decrement_project_locked : Uuid → Method Unit
decrement_project_locked p c = elim (get c.project_counts p) [
  | none ↦ (c, raise key_error)
  | some n ↦ (record c { project_counts = decremented c.project_counts p n }, ok tt)
]

unfoldable pub incremented : Dict ℕ → Uuid → Dict ℕ
unfolding get_or
incremented counts p = put counts p (get_or counts p 0 + 1)

unfoldable pub increment_project_locked : Uuid → Method Unit
increment_project_locked p c = (record c { project_counts = incremented c.project_counts p }, ok tt)

unfoldable pub write_entry : ScheduleEntry → Method Unit
write_entry e c = (record c { entries = put c.entries e.id e }, ok tt)

unfoldable pub store_entry_locked : ScheduleEntry → Method Unit
unfolding decrement_project_locked increment_project_locked write_entry
store_entry_locked e c = elim (get c.entries e.id) [
  | none ↦ (do increment_project_locked e.project_id; write_entry e) c
  | some previous ↦
      if previous.project_id == e.project_id
      then write_entry e c
      else (do
        decrement_project_locked previous.project_id
        increment_project_locked e.project_id
        write_entry e)
          c
]

unfoldable pub remove_entry_locked : Uuid → Method (Option ScheduleEntry)
unfolding decrement_project_locked
remove_entry_locked k c = elim (get c.entries k) [
  | none ↦ (c, ok none)
  | some e ↦
      (do decrement_project_locked e.project_id; λ c'. (c', ok (some e)))
        (record c { entries = pop c.entries k })
]

-- `count_for_project`.
unfoldable pub count_for_project : Cache → Uuid → ℕ
unfolding get_or
count_for_project c p = get_or c.project_counts p 0
