-- ===== src/Cache/State.antt =====
-- storage/cache.py: the fields of `ScheduleCache`, its errors, and the state passing of its
-- methods. A method returns the new cache beside its result, also when it raises.
use z4j_scheduler.Prelude.{ℕ, ◌≡◌, ap, Bool, true, false, Option, none, [], Text, List}
use z4j_scheduler.Dict.{Dict, Set}
use z4j_scheduler.Entry.{Uuid, ScheduleEntry, BrainPayload, ControlIdentity}

pub record LocalQuarantine : Type 0 where
  pub definition_identity : ControlIdentity
  pub code : Text
  pub detail : Text

pub record CurrentStop : Type 0 where
  pub control_token : Uuid
  pub refused_at_revision : ℕ
  pub brain_enabled : Bool

-- One constructor for each message of `ScheduleProtocolError`, and Python's `KeyError`.
pub data Error : Type 0 where
  key_error : Error
  malformed_shape project_moved legacy_update conflicting_update : Error
  cursor_not_increasing : Error
  tombstone_not_positive tombstone_moved tombstone_conflict : Error
  absence_not_positive absence_moved absence_conflict : Error
  snapshot_digest_mismatch snapshot_legacy_row snapshot_escaped : Error
  snapshot_duplicate snapshot_exceeds_watermark snapshot_conflict : Error
  watch_not_increasing checkpoint_exceeds_server event_escaped : Error
  malformed_upsert upsert_mismatch malformed_tombstone : Error

pub data Result {ℓ} (A : Type ℓ) : Type ℓ where
  ok : A → Result A
  raise : Error → Result A

pub record Cache : Type 0 where
  pub entries : Dict ScheduleEntry
  pub project_counts : Dict ℕ
  pub local_quarantines : Dict LocalQuarantine
  pub current_stop_latches : Dict CurrentStop
  pub brain_payloads : Dict BrainPayload
  pub id_revisions : Dict ℕ
  pub id_projects : Dict Uuid
  pub project_watermarks : Dict ℕ
  pub global_watermark : ℕ
  pub max_post_watermark_tombstones : ℕ
  pub snapshot_required_projects : Set
  -- Whether the hook is wired, and the calls that it got, the latest first.
  pub on_snapshot_required : Bool
  pub snapshot_requests : List (Uuid × ℕ)
  -- The event `changed`.
  pub changed : Bool
  pub is_leader : Option (Uuid → Bool)

abbrev pub Method : Type 0 → Type 0
Method A = Cache → Cache × Result A

infixl 5 ◌>>=◌ ◌>>◌
abbrev pub ◌>>=◌ : {A B : Type 0} → Method A → (A → Method B) → Method B
◌>>=◌ m f c = let (c', r) = m c in elim r [ ok a ↦ f a c' | raise e ↦ (c', raise e) ]

abbrev pub ◌>>◌ : {B : Type 0} → Method (Unit {0}) → Method B → Method B
m >> k = m >>= λ _. k

-- What follows a step, from its result.
abbrev pub resume : {A B : Type 0} → (A → Method B) → Cache × Result A → Cache × Result B
resume f (c, r) = elim r [ ok a ↦ f a c | raise e ↦ (c, raise e) ]

-- A step that returns hands on its value and its cache.
pub >>=-of_ok :
    {A B : Type 0} (m : Method A) (f : A → Method B) {c c' : Cache} {a : A}
    → m c ≡ (c', ok a)
    → (m >>= f) c ≡ f a c'
>>=-of_ok m f h = ap (resume f) h

-- A step that raises ends the method.
pub >>=-of_raise :
    {A B : Type 0} (m : Method A) (f : A → Method B) {c c' : Cache} {e : Error}
    → m c ≡ (c', raise e)
    → (m >>= f) c ≡ (c', raise e)
>>=-of_raise m f h = ap (resume f) h

-- `self.changed.set()` at the end of a method.
abbrev pub set_changed : Cache → Cache
set_changed c = record c { changed = true }

-- `ScheduleCache(max_post_watermark_tombstones=cap)`, for a positive cap.
abbrev pub empty_cache : ℕ → Cache
empty_cache cap = record {
  entries = [];
  project_counts = [];
  local_quarantines = [];
  current_stop_latches = [];
  brain_payloads = [];
  id_revisions = [];
  id_projects = [];
  project_watermarks = [];
  global_watermark = 0;
  max_post_watermark_tombstones = cap;
  snapshot_required_projects = [];
  on_snapshot_required = false;
  snapshot_requests = [];
  changed = false;
  is_leader = none;
}
