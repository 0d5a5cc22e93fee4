-- ===== src/Cache/Invariant.antt =====
-- storage/cache.py: what a cache keeps: the counts of its projects, and for each row of the current
-- protocol the evidence (revision, project and payload) of the Brain state that it came from.
use z4j_scheduler.Prelude.{ℕ, ◌≡◌, Bool, true, Option, none, some, is_some, Text}
pub mod Keep
pub mod Monad
pub mod Merging
pub mod Latching
pub mod Advancing
pub mod Deleting
pub mod Snapshots
use z4j_scheduler.Dict.{Dict, get}
use z4j_scheduler.Entry.{Uuid, ScheduleKind, CatchUpPolicy, ScheduleEntry, BrainPayload}
use z4j_scheduler.Cache.State.{Cache}
use z4j_scheduler.Cache.Rows.Counts.{IsCounted}
use z4j_scheduler.Cache.Watch.{well_shaped}

-- What no latch and no fire changes of a row: all but its times and whether it is enabled.
abbrev pub Lasting : Type 0
Lasting =
    Uuid
    × Uuid
    × ScheduleKind
    × Text
    × Text
    × CatchUpPolicy
    × Text
    × Text
    × Option Uuid
    × ℕ
    × Text
    × ℕ
    × Text

abbrev pub lasting : ScheduleEntry → Lasting
lasting e = (
  e.id, e.project_id, e.kind, e.expression, e.timezone, e.catch_up, e.name, e.engine,
  e.control_token, e.schedule_revision, e.definition_digest, e.cadence_semantics_version,
  e.cadence_runtime_fingerprint,
)

-- The same of a payload, and of a recorded one.
abbrev pub payload_lasting : BrainPayload → Lasting
payload_lasting p = (p.0, p.1, p.2, p.3, p.4, p.6, p.10, p.11, p.12, p.13, p.14, p.15, p.16)

abbrev pub sent_lasting : Option BrainPayload → Option Lasting
sent_lasting none = none
sent_lasting (some p) = some (payload_lasting p)

-- The payload that is recorded for a current row has its lasting fields.
abbrev pub IsSent : Dict BrainPayload → Uuid → ScheduleEntry → Type 0
IsSent payloads k e =
    is_some e.control_token ≡ true → sent_lasting (get payloads k) ≡ some (lasting e)

-- The row at a key: it carries the key, has one of the two shapes, and its evidence agrees with it, the payload in the lasting
-- fields.
pub record IsHeld (c : Cache) (k : Uuid) (e : ScheduleEntry) : Type 0 where
  pub keyed : e.id ≡ k
  pub shaped : well_shaped e ≡ true
  pub revised : is_some e.control_token ≡ true → get c.id_revisions k ≡ some e.schedule_revision
  pub placed : is_some e.control_token ≡ true → get c.id_projects k ≡ some e.project_id
  pub sent : IsSent c.brain_payloads k e

pub record IsWellFormed (c : Cache) : Type 0 where
  pub counted : IsCounted c.entries c.project_counts
  pub rows : (k : Uuid) (e : ScheduleEntry) → get c.entries k ≡ some e → IsHeld c k e
