-- ===== src/SnapshotWire/Buffer.antt =====
-- storage/_snapshot_wire.py: what the assembler keeps of the rows that it buffers.
use z4j_scheduler.Prelude.{
  ◌≡◌, refl, ap, sym, Bool, true, false, not, Option, none, some, List, [], ◌∷◌, ◌++◌, Text,
  text_eq, All, if◌then◌else◌, ==_iff,
}
use z4j_scheduler.Dict.{Set, add, contains}
use z4j_scheduler.Entry.{Uuid, ScheduleEntry}
use z4j_scheduler.Cache.Snapshot.{ScheduleSnapshot, row_ids}
use z4j_scheduler.SnapshotWire.{
  ◌>>=◌, SnapshotAssembler, FrameError, Check, pass, fail, scope_eq, allows,
}

-- Rows whose ids differ from those seen and from one another.
unfoldable pub Fresh : Set → List ScheduleEntry → Type 0
Fresh seen [] = Unit
Fresh seen (e ∷ es) = (contains seen e.id ≡ false) × Fresh (add seen e.id) es

pub Fresh-append :
    (seen : Set) (es : List ScheduleEntry) (e : ScheduleEntry)
    → Fresh seen es
    → contains (row_ids seen es) e.id ≡ false
    → Fresh seen (es ++ (e ∷ []))
unfolding Fresh row_ids
Fresh-append seen [] e h new = (new, tt)
Fresh-append seen (x ∷ xs) e h new = (h.0, Fresh-append (add seen x.id) xs e h.1 new)

pub row_ids-append :
    (seen : Set) (es : List ScheduleEntry) (e : ScheduleEntry)
    → row_ids seen (es ++ (e ∷ [])) ≡ add (row_ids seen es) e.id
unfolding row_ids
row_ids-append seen [] e = refl
row_ids-append seen (x ∷ xs) e = row_ids-append (add seen x.id) xs e

pub allowed-append :
    (p : Option Uuid) (es : List ScheduleEntry) (e : ScheduleEntry)
    → All (λ x. allows p x.project_id ≡ true) es
    → allows p e.project_id ≡ true
    → All (λ x. allows p x.project_id ≡ true) (es ++ (e ∷ []))
allowed-append p [] e h new = (new, tt)
allowed-append p (x ∷ xs) e h new = (h.0, allowed-append p xs e h.1 new)

-- What holds of a snapshot for a project: its digest, its scope and its distinct ids.
pub record IsChecked (digest : ScheduleSnapshot → Text) (p : Option Uuid) (s : ScheduleSnapshot)
    : Type 0 where
  pub scoped : s.project_id ≡ p
  pub digested : text_eq s.digest (digest s) ≡ true
  pub allowed : All (λ x. allows p x.project_id ≡ true) s.rows
  pub fresh : Fresh [] s.rows

abbrev pub IsDone : (ScheduleSnapshot → Text) → Option Uuid → Option ScheduleSnapshot → Type 0
IsDone digest p none = Unit
IsDone digest p (some s) = IsChecked digest p s

pub record IsBuffer (digest : ScheduleSnapshot → Text) (p : Option Uuid) (a : SnapshotAssembler)
    : Type 0 where
  pub expected : a.expected_project_id ≡ p
  pub seen : a.seen_ids ≡ row_ids [] a.rows
  pub allowed : All (λ x. allows p x.project_id ≡ true) a.rows
  pub fresh : Fresh [] a.rows
  pub done : IsDone digest p a.complete

pub scope_eq-eq : (p q : Option Uuid) → scope_eq p q ≡ true → p ≡ q
scope_eq-eq none none h = refl
scope_eq-eq none (some q) h = cc
scope_eq-eq (some p) none h = cc
scope_eq-eq (some p) (some q) h = ap some ((==_iff p q).0 h)

-- What holds of the result of a frame.
abbrev pub Passes : (SnapshotAssembler → Type 0) → Check SnapshotAssembler → Type 0
Passes P (pass a) = P a
Passes P (fail e) = Unit

pub Passes-if :
    (P : SnapshotAssembler → Type 0) (b : Bool) (e : FrameError) (r : Check SnapshotAssembler)
    → (b ≡ false → Passes P r)
    → Passes P (if b then fail e else r)
Passes-if P true e r h = tt
Passes-if P false e r h = h refl

pub Passes-bind :
    {A : Type 0} (P : SnapshotAssembler → Type 0) (m : Check A) (f : A → Check SnapshotAssembler)
    → ((x : A) → Passes P (f x))
    → Passes P (m >>= f)
unfolding ◌>>=◌
Passes-bind P (pass x) f h = h x
Passes-bind P (fail e) f h = tt

pub pass-injective : {A : Type 0} {a b : A} → pass a ≡ pass b → a ≡ b
pass-injective h = cc

pub Passes-then :
    (P : SnapshotAssembler → Type 0) (r : Check SnapshotAssembler)
    (f : SnapshotAssembler → Check SnapshotAssembler)
    → Passes P r
    → ((a : SnapshotAssembler) → P a → Passes P (f a))
    → Passes P (r >>= f)
unfolding ◌>>=◌
Passes-then P (pass a) f h k = k a h
Passes-then P (fail e) f h k = tt

pub of_not : (b : Bool) → not b ≡ false → b ≡ true
of_not true h = refl
of_not false h = sym h
