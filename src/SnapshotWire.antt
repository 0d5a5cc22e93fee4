-- ===== src/SnapshotWire.antt =====
-- storage/_snapshot_wire.py: `SnapshotAssembler`, which buffers the frames of one snapshot.
pub mod Buffer
pub mod Assembled
pub mod Tests
use z4j_scheduler.Prelude.{
  ℕ, Bool, true, false, not, Option, none, some, List, [], ◌∷◌, ◌++◌, Text, text_eq, length,
  non_empty, ◌==◌, if◌then◌else◌, is_some, is_none,
}
use z4j_scheduler.Dict.{Set, add, contains}
use z4j_scheduler.Entry.{Uuid, ScheduleEntry}
use z4j_scheduler.Cache.Snapshot.{ScheduleSnapshot}

-- The messages of `SnapshotFrameError`, and the error of a row that does not convert.
pub data FrameError : Type 0 where
  after_completion unknown_frame : FrameError
  second_header unsupported_version header_escaped : FrameError
  row_before_header row_changed_id row_escaped duplicate_id : FrameError
  complete_before_header complete_changed_version complete_changed_id : FrameError
  complete_changed_project row_count_mismatch digest_mismatch : FrameError
  not_a_uuid malformed_row ended_early : FrameError

pub data Check {ℓ} (A : Type ℓ) : Type ℓ where
  pass : A → Check A
  fail : FrameError → Check A

infixl 5 ◌>>=◌ ◌>>◌
unfoldable pub ◌>>=◌ : {A B : Type 0} → Check A → (A → Check B) → Check B
pass a >>= f = f a
fail e >>= f = fail e

abbrev pub ◌>>◌ : {B : Type 0} → Check (Unit {0}) → Check B → Check B
m >> k = m >>= λ _. k

-- if not b: raise e
abbrev pub require : Bool → FrameError → Check (Unit {0})
require b e = if b then pass tt else fail e

-- The wire messages, with the schedule of a row as the protocol has it.
pub record ScheduleSnapshotHeader : Type 0 where
  pub format_version : ℕ
  pub snapshot_id : Text
  pub project_id : Text

pub record ScheduleSnapshotRow (W : Type 0) : Type 0 where
  pub snapshot_id : Text
  pub schedule : W

pub record ScheduleSnapshotComplete : Type 0 where
  pub format_version : ℕ
  pub snapshot_id : Text
  pub project_id : Text
  pub watermark : ℕ
  pub row_count : ℕ
  pub digest : Text

pub data SnapshotFrame (W : Type 0) : Type 0 where
  header : ScheduleSnapshotHeader → SnapshotFrame W
  row : ScheduleSnapshotRow W → SnapshotFrame W
  complete : ScheduleSnapshotComplete → SnapshotFrame W
  unknown : SnapshotFrame W

pub record SnapshotAssembler : Type 0 where
  pub expected_project_id : Option Uuid
  pub snapshot_id : Option Uuid
  pub rows : List ScheduleEntry
  pub seen_ids : Set
  pub complete : Option ScheduleSnapshot

abbrev pub new_assembler : Option Uuid → SnapshotAssembler
new_assembler p = record {
  expected_project_id = p;
  snapshot_id = none;
  rows = [];
  seen_ids = [];
  complete = none;
}

abbrev pub snapshot_format_version : ℕ
snapshot_format_version = 1

-- `a == b` on optional ids.
abbrev pub scope_eq : Option Uuid → Option Uuid → Bool
scope_eq none none = true
scope_eq none (some q) = false
scope_eq (some p) none = false
scope_eq (some p) (some q) = p == q

-- `expected is not None and p != expected`, negated.
abbrev pub allows : Option Uuid → Uuid → Bool
allows none p = true
allows (some q) p = p == q

abbrev pub candidate :
    ScheduleSnapshotComplete → Uuid → Option Uuid → SnapshotAssembler → ScheduleSnapshot
candidate m u p a = record {
  snapshot_id = u;
  project_id = p;
  watermark = m.watermark;
  rows = a.rows;
  digest = m.digest;
}

module _ {W : Type 0} (uuid_of : Text → Option Uuid) (entry_from_pb : W → Option ScheduleEntry)
    (snapshot_digest : ScheduleSnapshot → Text) where
  unfoldable pub uuid : Text → Check Uuid
  uuid value = elim (uuid_of value) [ none ↦ fail not_a_uuid | some u ↦ pass u ]

  unfoldable pub scope : Text → Check (Option Uuid)
  scope value = if non_empty value then (uuid value >>= λ u. pass (some u)) else pass none

  -- `_uuid(value) != self._snapshot_id`, after the check that there is one.
  unfoldable pub same_snapshot : Text → FrameError → FrameError → SnapshotAssembler → Check Uuid
  same_snapshot value early changed a = elim a.snapshot_id [
    | none ↦ fail early
    | some s ↦ uuid value >>= λ u. if u == s then pass s else fail changed
  ]

  unfoldable pub accept_header :
      ScheduleSnapshotHeader → SnapshotAssembler → Check SnapshotAssembler
  accept_header h a = do
    require (is_none a.snapshot_id) second_header
    require (h.format_version == snapshot_format_version) unsupported_version
    u ← uuid h.snapshot_id
    p ← scope h.project_id
    require (scope_eq p a.expected_project_id) header_escaped
    pass (record a { snapshot_id = some u })

  unfoldable pub accept_entry : ScheduleEntry → SnapshotAssembler → Check SnapshotAssembler
  accept_entry e a =
      if not (allows a.expected_project_id e.project_id)
      then fail row_escaped
      else if contains a.seen_ids e.id
      then fail duplicate_id
      else pass (record a { seen_ids = add a.seen_ids e.id; rows = a.rows ++ (e ∷ []) })

  unfoldable pub accept_row : ScheduleSnapshotRow W → SnapshotAssembler → Check SnapshotAssembler
  accept_row r a = same_snapshot r.snapshot_id row_before_header row_changed_id a >>= λ _.
      elim (entry_from_pb r.schedule) [ none ↦ fail malformed_row | some e ↦ accept_entry e a ]

  unfoldable pub accept_candidate :
      ScheduleSnapshotComplete → Uuid → Option Uuid → SnapshotAssembler → Check SnapshotAssembler
  accept_candidate m u p a =
      if not (scope_eq p a.expected_project_id)
      then fail complete_changed_project
      else if not (m.row_count == length a.rows)
      then fail row_count_mismatch
      else if not (text_eq m.digest (snapshot_digest (candidate m u p a)))
      then fail digest_mismatch
      else pass (record a { complete = some (candidate m u p a) })

  unfoldable pub accept_complete :
      ScheduleSnapshotComplete → SnapshotAssembler → Check SnapshotAssembler
  accept_complete m a = do
    require (is_some a.snapshot_id) complete_before_header
    require (m.format_version == snapshot_format_version) complete_changed_version
    u ← same_snapshot m.snapshot_id complete_before_header complete_changed_id a
    p ← scope m.project_id
    accept_candidate m u p a

  -- A frame that raises leaves the assembler as it was: the fields are written after the checks.
  unfoldable pub accept : SnapshotFrame W → SnapshotAssembler → Check SnapshotAssembler
  accept f a = if is_some a.complete then fail after_completion else elim f [
    | header h ↦ accept_header h a
    | row r ↦ accept_row r a
    | complete m ↦ accept_complete m a
    | unknown ↦ fail unknown_frame
  ]

  unfoldable pub finish : SnapshotAssembler → Check ScheduleSnapshot
  finish a = elim a.complete [ none ↦ fail ended_early | some s ↦ pass s ]

  -- The frames in their order, up to the first that raises.
  unfoldable pub accept_all : List (SnapshotFrame W) → SnapshotAssembler → Check SnapshotAssembler
  accept_all [] a = pass a
  accept_all (f ∷ fs) a = accept f a >>= λ b. accept_all fs b

  -- `read_snapshot` of the client: the frames in their order, and then `finish`.
  unfoldable pub assemble : Option Uuid → List (SnapshotFrame W) → Check ScheduleSnapshot
  assemble p fs = accept_all fs (new_assembler p) >>= finish
