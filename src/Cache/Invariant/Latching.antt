-- ===== src/Cache/Invariant/Latching.antt =====
-- storage/cache.py: the well-formedness of a cache across latches and fire state.
use z4j_scheduler.Prelude.{
  ℕ, ◌≡◌, refl, inl, inr, Bool, false, Option, some, arith, Option-cases, Bool-cases, Text, not,
  ◌==◌, ◌||◌,
}
use z4j_scheduler.Dict.{get, put}
use z4j_scheduler.Entry.{
  schedule_control_identity, control_identity_eq, Uuid, Instant, ScheduleEntry,
}
use z4j_scheduler.Cache.State.{Cache}
use z4j_scheduler.Cache.Invariant.{IsWellFormed}
use z4j_scheduler.Cache.Invariant.Keep.{Agrees, Agrees-IsWellFormed, replace-IsWellFormed}
use z4j_scheduler.Cache.Watch.{well_shaped}
use z4j_scheduler.Cache.Latches.{
  quarantine_locally, latch_current_stop, release_current_stop, update_fire_state, given, token_is,
  stop_is_superseded, definition_moved,
}

-- A cache in which one row had its times and its enabled value written in place.
record Touched (c c' : Cache) (k : Uuid) (e : ScheduleEntry) : Type 0 where
  last : Option Instant
  next : Option Instant
  enabled : Bool
  rest :
      Agrees
        (record c {
          entries =
              put c.entries k
                (record e { last_fire_at = last; next_fire_at = next; is_enabled = enabled });
        })
        c'

Touched-IsWellFormed :
    (c c' : Cache) (k : Uuid) (e : ScheduleEntry)
    → Touched c c' k e
    → get c.entries k ≡ some e
    → IsWellFormed c
    → IsWellFormed c'
unfolding well_shaped
Touched-IsWellFormed c c' k e t at h = Agrees-IsWellFormed _ c' t.rest (
    replace-IsWellFormed c k e _ h at (record {
      id = refl;
      project_id = refl;
      control_token = refl;
      schedule_revision = refl;
      shaped = refl;
      kept = refl;
    }))

pub quarantine_locally-IsWellFormed :
    (k : Uuid) (x : ScheduleEntry) (code detail : Text) (c : Cache)
    → IsWellFormed c
    → IsWellFormed (quarantine_locally k x code detail c).0
unfolding quarantine_locally
quarantine_locally-IsWellFormed k x code detail c h = elim (Option-cases (get c.entries k)) [
  | inl gone ↦ rw (gone, quarantine_locally) h
  | inr (e, at) ↦
      elim (Bool-cases
        (control_identity_eq (schedule_control_identity e) (schedule_control_identity x))) [
          | inl same ↦
              rw (at, same, quarantine_locally)
                (Touched-IsWellFormed c _ k e
                  (record {
                    last = e.last_fire_at;
                    next = e.next_fire_at;
                    enabled = false;
                    rest = ground arith;
                  })
                  at h)
          | inr moved ↦ rw (at, moved, quarantine_locally) h
        ]
]

pub latch_current_stop-IsWellFormed :
    (k token : Uuid) (refused : ℕ) (c : Cache)
    → IsWellFormed c
    → IsWellFormed (latch_current_stop k token refused c).0
unfolding latch_current_stop
latch_current_stop-IsWellFormed k token refused c h = elim (Option-cases (get c.entries k)) [
  | inl gone ↦ rw (gone, latch_current_stop) h
  | inr (e, at) ↦ elim (Bool-cases (token_is e.control_token token)) [
    | inr other ↦ rw (at, other, latch_current_stop) h
    | inl ours ↦ elim (Bool-cases (stop_is_superseded e.schedule_revision refused)) [
      | inl past ↦ rw (at, ours, past, latch_current_stop) h
      | inr live ↦
          rw (at, ours, live, latch_current_stop)
            (Touched-IsWellFormed c _ k e
              (record {
                last = e.last_fire_at;
                next = e.next_fire_at;
                enabled = false;
                rest = ground arith;
              })
              at h)
    ]
  ]
]

pub release_current_stop-IsWellFormed :
    (k token : Uuid) (c : Cache) → IsWellFormed c → IsWellFormed (release_current_stop k token c).0
unfolding release_current_stop
release_current_stop-IsWellFormed k token c h = elim (Option-cases (get c.current_stop_latches k)) [
  | inl unheld ↦ rw (unheld, release_current_stop) h
  | inr (stop, held) ↦ elim (Option-cases (get c.entries k)) [
    | inl gone ↦ rw (held, gone, release_current_stop) h
    | inr (e, at) ↦
        elim (Bool-cases
          (not (stop.control_token == token) || not (token_is e.control_token token))) [
            | inl other ↦ rw (held, at, other, release_current_stop) h
            | inr ours ↦
                rw (held, at, ours, release_current_stop)
                  (Touched-IsWellFormed c _ k e
                    (record {
                      last = e.last_fire_at;
                      next = e.next_fire_at;
                      enabled = stop.brain_enabled;
                      rest = ground arith;
                    })
                    at h)
          ]
  ]
]

pub update_fire_state-IsWellFormed :
    (k : Uuid) (last next : Option (Option Instant)) (b : Option Bool) (x : Option ScheduleEntry)
    (c : Cache)
    → IsWellFormed c
    → IsWellFormed (update_fire_state k last next b x c).0
unfolding update_fire_state
update_fire_state-IsWellFormed k last next b x c h = elim (Option-cases (get c.entries k)) [
  | inl gone ↦ rw (gone, update_fire_state) h
  | inr (e, at) ↦ elim (Bool-cases (definition_moved x e)) [
    | inl moved ↦ rw (at, moved, update_fire_state) h
    | inr kept ↦
        rw (at, kept, update_fire_state)
          (Touched-IsWellFormed c _ k e
            (record {
              last = given last e.last_fire_at;
              next = given next e.next_fire_at;
              enabled = given b e.is_enabled;
              rest = ground arith;
            })
            at h)
  ]
]
