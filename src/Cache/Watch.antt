-- ===== src/Cache/Watch.antt =====
-- storage/cache.py: the merge of Brain rows into the cache.
pub mod Install
pub mod Order
pub mod Clamp
pub mod Tests
use z4j_scheduler.Prelude.{
  ℕ, Bool, true, false, not, ◌&&◌, ◌||◌, Option, none, some, List, [], ◌∷◌, ltb, leb, ◌==◌,
  if◌then◌else◌, max, non_empty, is_some, is_none,
}
use z4j_scheduler.Dict.{get, put, get_or}
use z4j_scheduler.Entry.{
  Uuid, ScheduleEntry, BrainPayload, schedule_brain_payload, payload_eq,
  schedule_definition_changed,
}
use z4j_scheduler.Cache.State.{
  Cache, Error, Method, ok, raise, malformed_shape, project_moved, legacy_update,
  conflicting_update, set_changed, ◌>>◌,
}
use z4j_scheduler.Cache.Rows.{store_entry_locked}
use z4j_scheduler.Cache.Latches.{apply_local_quarantine_locked, apply_current_stop_locked}

abbrev pub is_current_shape : ScheduleEntry → Bool
is_current_shape e =
    is_some e.control_token
    && ltb 0 e.schedule_revision
    && non_empty e.definition_digest
    && ltb 0 e.cadence_semantics_version
    && non_empty e.cadence_runtime_fingerprint

abbrev pub is_legacy_shape : ScheduleEntry → Bool
is_legacy_shape e =
    is_none e.control_token
    && e.schedule_revision == 0
    && not (non_empty e.definition_digest)
    && e.cadence_semantics_version == 0
    && not (non_empty e.cadence_runtime_fingerprint)

-- Whether `_validate_protocol_shape` lets the row pass.
unfoldable pub well_shaped : ScheduleEntry → Bool
well_shaped e = is_current_shape e || is_legacy_shape e

-- What a row of the current protocol leaves in the three maps of evidence.
unfoldable pub remember : BrainPayload → ScheduleEntry → Cache → Cache
remember payload e c =
    let current = is_some e.control_token in
    record c {
      brain_payloads = if current then put c.brain_payloads e.id payload else c.brain_payloads;
      id_revisions =
          if current then put c.id_revisions e.id e.schedule_revision else c.id_revisions;
      id_projects = if current then put c.id_projects e.id e.project_id else c.id_projects;
    }

unfoldable pub install_row : BrainPayload → ScheduleEntry → Method Unit
install_row payload e c =
    let (c', e') = apply_local_quarantine_locked e (remember payload e c) in
    let (c'', e'') = apply_current_stop_locked e' c' in store_entry_locked e'' c''

unfoldable pub upsert_locked : ScheduleEntry → Method Unit
upsert_locked e c =
    if well_shaped e then install_row (schedule_brain_payload e) e c else (c, raise malformed_shape)

-- The event is set after the lock is released, and not if the method raised.
abbrev pub mark_changed : Method Unit
mark_changed c = (set_changed c, ok tt)

-- A loop over rows under one lock: rows before one that raises stay applied.
unfoldable pub for_each : (ScheduleEntry → Method Unit) → List ScheduleEntry → Method Unit
for_each f [] c = (c, ok tt)
for_each f (e ∷ es) c = (f e >> for_each f es) c

unfoldable pub upsert : ScheduleEntry → Method Unit
upsert e = do upsert_locked e; mark_changed

unfoldable pub upsert_many : List ScheduleEntry → Method Unit
upsert_many [] c = (c, ok tt)
upsert_many (e ∷ es) c = (do for_each upsert_locked (e ∷ es); mark_changed) c

-- max(self._global_watermark, self._project_watermarks.get(project_id, 0))
unfoldable pub watermark : Cache → Uuid → ℕ
watermark c p = max c.global_watermark (get_or c.project_watermarks p 0)

unfoldable pub known_revision : Cache → Uuid → ℕ
known_revision c k = get_or c.id_revisions k 0

-- `existing is not None and existing.control_token is not None`
abbrev pub is_current : Option ScheduleEntry → Bool
is_current none = false
is_current (some e) = is_some e.control_token

abbrev pub revision_of : Option ScheduleEntry → ℕ
revision_of none = 0
revision_of (some e) = e.schedule_revision

abbrev pub has_moved : Option ScheduleEntry → ScheduleEntry → Bool
has_moved none incoming = false
has_moved (some e) incoming = is_some e.control_token && not (incoming.project_id == e.project_id)

abbrev pub current_protocol : Option ScheduleEntry → ScheduleEntry → Bool
current_protocol existing incoming =
    is_current existing
    && is_some incoming.control_token
    && ltb 0 (revision_of existing)
    && ltb 0 incoming.schedule_revision

-- `self._brain_payloads.get(id) == payload`
abbrev pub was_sent : Option BrainPayload → BrainPayload → Bool
was_sent none payload = false
was_sent (some sent) payload = payload_eq sent payload

pub data Verdict : Type 0 where
  reject : Error → Verdict
  ignore accept : Verdict

-- The checks of `_apply_watch_update_locked` in their order: raise, return, or go on.
unfoldable pub watch_verdict : Cache → ScheduleEntry → Verdict
watch_verdict c incoming =
    let existing = get c.entries incoming.id in
    let known = known_revision c incoming.id in
    if not (well_shaped incoming)
    then reject malformed_shape
    else if has_moved existing incoming
    then reject project_moved
    else if is_some incoming.control_token && ltb incoming.schedule_revision known
    then ignore
    else if is_some incoming.control_token
        && leb incoming.schedule_revision (watermark c incoming.project_id)
        && ltb known incoming.schedule_revision
    then ignore
    else if is_current existing
    then (if not (current_protocol existing incoming)
        then reject legacy_update
        else if ltb incoming.schedule_revision (revision_of existing)
        then ignore
        else if incoming.schedule_revision == revision_of existing
        then (if was_sent (get c.brain_payloads incoming.id) (schedule_brain_payload incoming)
            then ignore
            else reject conflicting_update)
        else accept)
    else accept

-- `self.is_leader is None or self.is_leader(project_id)`
abbrev pub leads : Cache → Uuid → Bool
leads c p = elim c.is_leader [ none ↦ true | some f ↦ f p ]

-- A leader keeps its fire-state over a legacy echo of the same cadence.
unfoldable pub merge_fire_state : Cache → ScheduleEntry → ScheduleEntry
merge_fire_state c incoming = elim (get c.entries incoming.id) [
  | none ↦ incoming
  | some e ↦
      if not (current_protocol (some e) incoming)
        && not (schedule_definition_changed e incoming)
        && leads c e.project_id
      then record incoming {
        anchor_at = e.anchor_at;
        last_fire_at = e.last_fire_at;
        next_fire_at = e.next_fire_at;
      }
      else incoming
]

unfoldable pub apply_watch_update_locked : ScheduleEntry → Method Unit
apply_watch_update_locked incoming c = elim (watch_verdict c incoming) [
  | reject e ↦ (c, raise e)
  | ignore ↦ (c, ok tt)
  | accept ↦ install_row (schedule_brain_payload incoming) (merge_fire_state c incoming) c
]

unfoldable pub apply_watch_update : ScheduleEntry → Method Unit
apply_watch_update incoming = do apply_watch_update_locked incoming; mark_changed

unfoldable pub apply_watch_updates : List ScheduleEntry → Method Unit
apply_watch_updates [] c = (c, ok tt)
apply_watch_updates (e ∷ es) c = (do for_each apply_watch_update_locked (e ∷ es); mark_changed) c
