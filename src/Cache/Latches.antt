-- ===== src/Cache/Latches.antt =====
-- storage/cache.py: the process-local latches that hold a row disabled, and the two methods of the
-- engine that write to a row.
use z4j_scheduler.Prelude.{
  ℕ, Bool, true, false, not, ◌&&◌, ◌||◌, Option, none, some, [], ◌∷◌, Text, codes, take, ltb, leb,
  ◌==◌, if◌then◌else◌, max, non_empty,
}
use z4j_scheduler.Dict.{get, put, pop}
use z4j_scheduler.Entry.{
  Uuid, Instant, ScheduleEntry, schedule_control_identity, control_identity_eq,
  schedule_definition_changed,
}
use z4j_scheduler.Cache.State.{Cache, set_changed}

-- `token == expected` for a token that may be `None`.
abbrev pub token_is : Option Uuid → Uuid → Bool
token_is none t = false
token_is (some s) t = s == t

unfoldable pub stop_is_superseded : ℕ → ℕ → Bool
stop_is_superseded live_revision refused_at_revision =
    ltb 0 refused_at_revision && leb refused_at_revision live_revision

-- The row that the caller passed comes back as the call leaves it.
unfoldable pub apply_local_quarantine_locked : ScheduleEntry → Cache → Cache × ScheduleEntry
apply_local_quarantine_locked incoming c = elim (get c.local_quarantines incoming.id) [
  | none ↦ (c, incoming)
  | some quarantine ↦
      if not
        (control_identity_eq quarantine.definition_identity (schedule_control_identity incoming))
      then (record c { local_quarantines = pop c.local_quarantines incoming.id }, incoming)
      else (c, record incoming { is_enabled = false })
]

-- The stop is written again also when its value stays, which changes nothing.
unfoldable pub apply_current_stop_locked : ScheduleEntry → Cache → Cache × ScheduleEntry
apply_current_stop_locked incoming c = elim (get c.current_stop_latches incoming.id) [
  | none ↦ (c, incoming)
  | some stop ↦
      if not (token_is incoming.control_token stop.control_token)
      then (record c { current_stop_latches = pop c.current_stop_latches incoming.id }, incoming)
      else if stop_is_superseded incoming.schedule_revision stop.refused_at_revision
      then (record c { current_stop_latches = pop c.current_stop_latches incoming.id }, incoming)
      else (
        record c {
          current_stop_latches =
              put c.current_stop_latches incoming.id
                (record stop { brain_enabled = incoming.is_enabled });
        },
        record incoming { is_enabled = false },
      )
]

-- `str.isspace`.
abbrev is_space : ℕ → Bool
is_space c =
    (leb 9 c && leb c 13)
    || (leb 28 c && leb c 32)
    || c == 133
    || c == 160
    || c == 5760
    || (leb 8192 c && leb c 8202)
    || c == 8232
    || c == 8233
    || c == 8239
    || c == 8287
    || c == 12288

-- s.lstrip()
lstrip : Text → Text
lstrip [] = []
lstrip (c ∷ s) = if is_space c then lstrip s else c ∷ s

-- s.rstrip()
rstrip : Text → Text
rstrip [] = []
rstrip (c ∷ s) = let rest = rstrip s in if is_space c && not (non_empty rest) then [] else c ∷ rest

unfoldable pub bounded_code : Text → Text
unfolding lstrip rstrip
bounded_code code =
    let clean = take 64 (rstrip (lstrip code)) in
    if non_empty clean then clean else codes "definition_invalid"

-- The characters that a quarantine's detail keeps.
abbrev pub is_printable : ℕ → Bool
is_printable c = (c == 32 || c == 9) || (leb 32 c && ltb c 127)

printable : Text → Text
printable [] = []
printable (c ∷ s) = let rest = printable s in if is_printable c then c ∷ rest else rest

unfoldable pub bounded_detail : Text → Text
unfolding printable
bounded_detail detail = take 500 (printable detail)

unfoldable pub quarantine_locally : Uuid → ScheduleEntry → Text → Text → Cache → Cache × Bool
quarantine_locally k expected code detail c =
    let identity = schedule_control_identity expected in
    elim (get c.entries k) [
      | none ↦ (c, false)
      | some e ↦
          if not (control_identity_eq (schedule_control_identity e) identity) then (c, false) else (
            set_changed (record c {
              local_quarantines = put c.local_quarantines k (record {
                definition_identity = identity;
                code = bounded_code code;
                detail = bounded_detail detail;
              });
              entries = put c.entries k (record e { is_enabled = false });
            }),
            true,
          )
    ]

unfoldable pub latch_current_stop : Uuid → Uuid → ℕ → Cache → Cache × Bool
latch_current_stop k expected_control_token refused_at_revision c = elim (get c.entries k) [
  | none ↦ (c, false)
  | some e ↦
      if not (token_is e.control_token expected_control_token)
      then (c, false)
      else if stop_is_superseded e.schedule_revision refused_at_revision
      then (c, false)
      else (
        set_changed (record c {
          current_stop_latches = put c.current_stop_latches k (record {
            control_token = expected_control_token;
            refused_at_revision = max 0 refused_at_revision;
            brain_enabled = e.is_enabled;
          });
          entries = put c.entries k (record e { is_enabled = false });
        }),
        true,
      )
]

unfoldable pub release_current_stop : Uuid → Uuid → Cache → Cache × Bool
release_current_stop k expected_control_token c = elim (get c.current_stop_latches k) [
  | none ↦ (c, false)
  | some stop ↦ elim (get c.entries k) [
    | none ↦ (c, false)
    | some e ↦
        if not (stop.control_token == expected_control_token)
          || not (token_is e.control_token expected_control_token)
        then (c, false)
        else (
          set_changed (record c {
            current_stop_latches = pop c.current_stop_latches k;
            entries = put c.entries k (record e { is_enabled = stop.brain_enabled });
          }),
          true,
        )
  ]
]

-- An argument that may be `_UNSET`, here `none`.
abbrev pub given {ℓ} : {A : Type ℓ} → Option A → A → A
given none a = a
given (some b) a = b

abbrev pub definition_moved : Option ScheduleEntry → ScheduleEntry → Bool
definition_moved none e = false
definition_moved (some expected) e = schedule_definition_changed expected e

unfoldable pub update_fire_state :
    Uuid
    → Option (Option Instant)
    → Option (Option Instant)
    → Option Bool
    → Option ScheduleEntry
    → Cache
    → Cache × Bool
update_fire_state k last_fire_at next_fire_at is_enabled expected_definition c =
    elim (get c.entries k) [
      | none ↦ (c, false)
      | some e ↦ if definition_moved expected_definition e then (c, false) else (
        set_changed (record c {
          entries = put c.entries k (record e {
            last_fire_at = given last_fire_at e.last_fire_at;
            next_fire_at = given next_fire_at e.next_fire_at;
            is_enabled = given is_enabled e.is_enabled;
          });
        }),
        true,
      )
    ]
