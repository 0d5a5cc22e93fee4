-- ===== src/Entry.antt =====
-- tick/_entry.py: the slim schedule shape, and the identities that the cache compares.
use z4j_scheduler.Prelude.{
  ℕ, ◌≡◌, refl, ◌↔◌, Bool, true, false, not, Option, none, some, Text, holds, ℕ_discrete, arith,
}

abbrev pub Uuid : Type 0
Uuid = ℕ

-- Microseconds since the Unix epoch.
abbrev pub Instant : Type 0
Instant = ℕ

pub data ScheduleKind : Type 0 where
  cron interval clocked one_shot solar : ScheduleKind

pub data CatchUpPolicy : Type 0 where
  skip fire_one_missed fire_all_missed : CatchUpPolicy

pub record ScheduleEntry : Type 0 where
  pub id : Uuid
  pub project_id : Uuid
  pub kind : ScheduleKind
  pub expression : Text
  pub timezone : Text
  pub is_enabled : Bool
  pub catch_up : CatchUpPolicy
  pub anchor_at : Instant
  pub last_fire_at : Option Instant
  pub name : Text
  pub engine : Text
  pub next_fire_at : Option Instant
  pub control_token : Option Uuid
  pub schedule_revision : ℕ
  pub definition_digest : Text
  pub cadence_semantics_version : ℕ
  pub cadence_runtime_fingerprint : Text

abbrev pub CadenceIdentity : Type 0
CadenceIdentity = ScheduleKind × Text × Text × CatchUpPolicy

abbrev pub schedule_cadence_identity : ScheduleEntry → CadenceIdentity
schedule_cadence_identity e = (e.kind, e.expression, e.timezone, e.catch_up)

pub data ControlIdentity : Type 0 where
  control_token : Uuid → ControlIdentity
  legacy_definition : CadenceIdentity → ControlIdentity

abbrev pub schedule_control_identity : ScheduleEntry → ControlIdentity
schedule_control_identity e = elim e.control_token [
  | some t ↦ ControlIdentity.control_token t
  | none ↦ legacy_definition (schedule_cadence_identity e)
]

CadenceIdentity-discrete : Discrete CadenceIdentity
unfolding ℕ_discrete
CadenceIdentity-discrete = hlevel ℕ_discrete

ControlIdentity-discrete : Discrete ControlIdentity
unfolding ℕ_discrete
ControlIdentity-discrete = hlevel ℕ_discrete

-- `a == b` on cadence identities.
unfoldable pub cadence_eq : CadenceIdentity → CadenceIdentity → Bool
unfolding CadenceIdentity-discrete
cadence_eq a b = holds (CadenceIdentity-discrete a b)

pub cadence_eq_iff : (a b : CadenceIdentity) → (cadence_eq a b ≡ true) ↔ (a ≡ b)
unfolding cadence_eq
cadence_eq_iff a b = elim (CadenceIdentity-discrete a b) as (λ d. (holds d ≡ true) ↔ (a ≡ b)) [
  | yes e ↦ (λ _. e, λ _. refl)
  | no n ↦ (λ h. cc, λ e. absurd (n e))
]

unfoldable pub schedule_definition_changed : ScheduleEntry → ScheduleEntry → Bool
unfolding CadenceIdentity-discrete
schedule_definition_changed a b =
    not
      (holds (CadenceIdentity-discrete (schedule_cadence_identity a) (schedule_cadence_identity b)))

pub schedule_definition_changed_refl : (e : ScheduleEntry) → schedule_definition_changed e e ≡ false
unfolding schedule_definition_changed
schedule_definition_changed_refl e =
    elim (CadenceIdentity-discrete (schedule_cadence_identity e) (schedule_cadence_identity e))
      as (λ d. not (holds d) ≡ false) [ yes p ↦ refl | no p ↦ absurd (p refl) ]

-- `a == b` on control identities.
unfoldable pub control_identity_eq : ControlIdentity → ControlIdentity → Bool
unfolding ControlIdentity-discrete
control_identity_eq a b = holds (ControlIdentity-discrete a b)

pub control_identity_eq_iff : (a b : ControlIdentity) → (control_identity_eq a b ≡ true) ↔ (a ≡ b)
unfolding control_identity_eq
control_identity_eq_iff a b =
    elim (ControlIdentity-discrete a b) as (λ d. (holds d ≡ true) ↔ (a ≡ b)) [
      | yes p ↦ (λ _. p, λ _. refl)
      | no p ↦ (λ h. cc, λ e. absurd (p e))
    ]

abbrev pub BrainPayload : Type 0
BrainPayload =
    Uuid
    × Uuid
    × ScheduleKind
    × Text
    × Text
    × Bool
    × CatchUpPolicy
    × Instant
    × Option Instant
    × Option Instant
    × Text
    × Text
    × Option Uuid
    × ℕ
    × Text
    × ℕ
    × Text

abbrev pub schedule_brain_payload : ScheduleEntry → BrainPayload
schedule_brain_payload e = (
  e.id, e.project_id, e.kind, e.expression, e.timezone, e.is_enabled, e.catch_up, e.anchor_at,
  e.last_fire_at, e.next_fire_at, e.name, e.engine, e.control_token, e.schedule_revision,
  e.definition_digest, e.cadence_semantics_version, e.cadence_runtime_fingerprint,
)

BrainPayload-discrete : Discrete BrainPayload
unfolding ℕ_discrete
BrainPayload-discrete = hlevel ℕ_discrete

-- `a == b` on payloads.
unfoldable pub payload_eq : BrainPayload → BrainPayload → Bool
unfolding BrainPayload-discrete
payload_eq a b = holds (BrainPayload-discrete a b)

pub payload_eq_iff : (a b : BrainPayload) → (payload_eq a b ≡ true) ↔ (a ≡ b)
unfolding payload_eq
payload_eq_iff a b = elim (BrainPayload-discrete a b) as (λ d. (holds d ≡ true) ↔ (a ≡ b)) [
  | yes p ↦ (λ _. p, λ _. refl)
  | no p ↦ (λ h. cc, λ e. absurd (p e))
]

-- The payload holds every field: two entries with one payload are one entry.
pub payload-injective :
    (a b : ScheduleEntry) → schedule_brain_payload a ≡ schedule_brain_payload b → a ≡ b
payload-injective a b h = ground arith
