-- ===== src/Convert/Returned.antt =====
-- storage/_convert.py: what comes back of a row that is written to a message and read again.
use z4j_scheduler.Prelude.{
  ◌*◌, ◌/◌, ◌%◌, ◌<◌, ◌≡◌, inl, inr, refl, ap, ◌∙◌, Bool, true, not, Option, none, some, [], ◌∷◌,
  ◌==◌, ◌&&◌, ◌||◌, text_eq, codes, non_empty, is_some, if◌then◌else◌, Bool-cases, Text, arith,
}
use z4j_scheduler.Entry.{
  Uuid, Instant, ScheduleKind, cron, interval, clocked, one_shot, solar, CatchUpPolicy, skip,
  fire_one_missed, fire_all_missed, ScheduleEntry,
}
use z4j_scheduler.Cache.Watch.{well_shaped}
use z4j_scheduler.Convert.Floats.{from_timestamp-exact}
use z4j_scheduler.Convert.{
  decoded, ◌>>=◌, ts_to_datetime, datetime_to_ts, kind_text, kind_from, catch_up_text,
  catch_up_from, optional_uuid, uuid, has_cursor, is_clocked, entry_from_pb, entry_to_pb, Codec,
  anchor_of, default_anchor, optional_str, current_protocol, legacy_protocol, text_or,
}

-- An instant that a message can tell from an absent one, and before the year 2242, from which on the floats
-- are further apart than microseconds.
abbrev pub IsExact : Option Instant → Type 0
IsExact none = Unit
IsExact (some t) = (0 < t) × (t < 8589934592000000)

abbrev pub aliased : ScheduleKind → ScheduleKind
aliased cron = cron
aliased interval = interval
aliased clocked = clocked
aliased one_shot = clocked
aliased solar = solar

-- The laws of the UUIDs.
pub record IsCodec (w : Codec) : Type 0 where
  pub parses : (u : Uuid) → w.uuid_of (w.str u) ≡ some u
  pub written : (u : Uuid) → non_empty (w.str u) ≡ true

ts-datetime : (o : Option Instant) → IsExact o → ts_to_datetime (datetime_to_ts o) ≡ o
unfolding ts_to_datetime datetime_to_ts
ts-datetime none h = refl
ts-datetime (some t) h = elim (Bool-cases (t / 1000000 == 0 && t % 1000000 * 1000 == 0)) [
  | inl z ↦ absurd (ground (arith, z))
  | inr n ↦ rw n (
      ap some (
        from_timestamp-exact (t / 1000000) (t % 1000000) (omega arith) (omega arith) ∙ omega arith))
]

kind_from-text : (k : ScheduleKind) → kind_from (kind_text k) ≡ decoded (aliased k)
unfolding kind_from text_eq
kind_from-text cron = refl
kind_from-text interval = refl
kind_from-text clocked = refl
kind_from-text one_shot = refl
kind_from-text solar = refl

catch_up_from-text : (c : CatchUpPolicy) → catch_up_from (catch_up_text c) ≡ decoded c
unfolding catch_up_from text_eq
catch_up_from-text skip = refl
catch_up_from-text fire_one_missed = refl
catch_up_from-text fire_all_missed = refl

uuid-str : (w : Codec) → IsCodec w → (u : Uuid) → uuid w (w.str u) ≡ decoded u
unfolding uuid
uuid-str w c u = rw (c.parses u, uuid) refl

optional_uuid-str :
    (w : Codec) → IsCodec w → (o : Option Uuid) → optional_uuid w (optional_str w o) ≡ decoded o
unfolding optional_uuid ◌>>=◌
optional_uuid-str w c none = refl
optional_uuid-str w c (some u) = rw (c.written u, uuid-str w c u) refl

text_or_full : (s other : Text) → non_empty s ≡ true → text_or s other ≡ s
text_or_full [] other h = cc
text_or_full (c ∷ s) other h = refl

-- What the reader makes of a row that was written.
abbrev pub reread : Codec → ScheduleEntry → ScheduleEntry
reread w e = record e {
  kind = aliased e.kind;
  name = [];
  engine = [];
  anchor_at =
      anchor_of e.last_fire_at e.next_fire_at
        (if is_some e.control_token then default_anchor else w.utcnow);
}

-- The row has what the current protocol asks of an enabled row.
abbrev pub has_authority : ScheduleEntry → Bool
has_authority e =
    not (is_some e.control_token)
    || (not e.is_enabled
        || is_some e.next_fire_at
        || is_clocked (aliased e.kind) && is_some e.last_fire_at)

shape-of :
    (w : Codec) (e : ScheduleEntry)
    → well_shaped e ≡ true
    → (current_protocol e.control_token (entry_to_pb w e)
        || legacy_protocol e.control_token (entry_to_pb w e))
      ≡ true
unfolding well_shaped entry_to_pb
shape-of w e h = ground (arith, h)

current-of :
    (w : Codec) (e : ScheduleEntry)
    → well_shaped e ≡ true
    → current_protocol e.control_token (entry_to_pb w e) ≡ is_some e.control_token
unfolding well_shaped entry_to_pb
current-of w e h = ground (arith, h)

cursor-of :
    (w : Codec) (e : ScheduleEntry)
    → well_shaped e ≡ true
    → has_authority e ≡ true
    → IsExact e.last_fire_at
    → IsExact e.next_fire_at
    → (not (current_protocol e.control_token (entry_to_pb w e))
        || has_cursor (aliased e.kind) (entry_to_pb w e))
      ≡ true
unfolding has_cursor entry_to_pb
cursor-of w e h a l n =
    rw (current-of w e h, ts-datetime e.last_fire_at l, ts-datetime e.next_fire_at n) a

-- A row of a shape that the cache accepts, with a next cursor where the current protocol asks for
-- one, a time zone, and no fire time at the epoch itself or from 2 ^ 33 seconds after it on, in the
-- year 2242, that is written to a message and read again comes back as it was, but for an empty
-- name and engine, the kind one_shot read as clocked, and an anchor that is its last fire, else its
-- next fire, else the default or the clock, whenever UUIDs are read back as they are written.
pub entry_from_pb-to_pb :
    (w : Codec) (e : ScheduleEntry)
    → IsCodec w
    → well_shaped e ≡ true
    → has_authority e ≡ true
    → non_empty e.timezone ≡ true
    → IsExact e.last_fire_at
    → IsExact e.next_fire_at
    → entry_from_pb w (entry_to_pb w e) ≡ decoded (reread w e)
unfolding entry_from_pb entry_to_pb ◌>>=◌
entry_from_pb-to_pb w e c h a z l n =
    rw
      (
        kind_from-text e.kind,
        catch_up_from-text e.catch_up,
        optional_uuid-str w c e.control_token,
        shape-of w e h,
        cursor-of w e h a l n,
        uuid-str w c e.id,
        uuid-str w c e.project_id,
        current-of w e h,
        ts-datetime e.last_fire_at l,
        ts-datetime e.next_fire_at n,
        text_or_full e.timezone (codes "UTC") z,
      )
      refl
