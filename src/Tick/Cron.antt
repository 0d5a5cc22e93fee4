-- ===== src/Tick/Cron.antt =====
-- tick/cron.py: `next_fire` and `fires_between` around croniter and the zones. An instant is absolute,
-- whatever zone the source writes it in.
pub mod Window
pub mod Kept
pub mod Walks
pub mod Latest
pub mod Tests
use z4j_scheduler.Prelude.{
  ℕ, zero, suc, ◌+◌, ◌-◌, Bool, true, false, not, Option, none, some, List, [], ◌∷◌, ◌++◌, Text,
  leb, ltb, ◌==◌, length, if◌then◌else◌,
}
use z4j_scheduler.Entry.{Instant}

-- What a computation of a cadence comes to: a value, the error of its own kind of expression that the
-- engine catches, or another exception.
pub data Computed (A : Type 0) : Type 0 where
  computed : A → Computed A
  expression_error : Computed A
  broke : Computed A

-- croniter and the zone database. An iterator is given by the expression, the zone and the base, and
-- answers with its instants in turn, or raises. An offset from UTC is in microseconds, counted from
-- minus one day.
pub record Croniter : Type 0 where
  pub knows_zone : Text → Bool
  pub is_cron : Text → Bool
  pub get_next : Text → Text → Instant → ℕ → Option Instant
  pub get_prev : Text → Text → Instant → ℕ → Option Instant
  pub utcoffset : Text → Instant → ℕ

abbrev from_iterator : Option Instant → Computed Instant
from_iterator none = broke
from_iterator (some t) = computed t

unfoldable pub cron_next_fire : Croniter → Text → Text → Instant → Computed Instant
cron_next_fire c expression tz after =
    if not (c.knows_zone tz)
    then expression_error
    else if not (c.is_cron expression)
    then expression_error
    else from_iterator (c.get_next expression tz after 0)

-- The dict `found`, whose keys are its values, in ascending order: what `sorted(found)` gives.
unfoldable pub insert : Instant → List Instant → List Instant
insert t [] = t ∷ []
insert t (x ∷ xs) =
    let rest = insert t xs in if ltb t x then t ∷ x ∷ xs else if t == x then x ∷ xs else x ∷ rest

-- A turn of the walk back, with what the rest of the walk gives.
abbrev pub turn_back :
    Instant
    → Instant
    → Instant × List Instant
    → Option Instant
    → (Instant × List Instant → Option (Instant × List Instant))
    → Option (Instant × List Instant)
turn_back after until state none rest = none
turn_back after until (lower, found) (some t) rest =
    if leb t after
    then some (lower, found)
    else rest (t, if leb t until then insert t found else found)

-- The walk back from `until`, from the `n`-th answer: the lower bound, and what was found.
unfoldable pub walk_back :
    (ℕ → Option Instant)
    → Instant
    → Instant
    → ℕ
    → ℕ
    → Instant × List Instant
    → Option (Instant × List Instant)
walk_back prev after until zero n state = some state
walk_back prev after until (suc cap) n state =
    turn_back after until state (prev n) (λ s. walk_back prev after until cap (n + 1) s)

abbrev pub turn_forward :
    Instant
    → Instant
    → List Instant
    → Option Instant
    → (List Instant → Computed (List Instant))
    → Computed (List Instant)
turn_forward after until found none rest = broke
turn_forward after until found (some t) rest =
    if ltb until t then computed found else rest (if ltb after t then insert t found else found)

-- The walk forward, which ends at the first answer past `until`.
unfoldable pub walk_forward :
    ℕ → (ℕ → Option Instant) → Instant → Instant → ℕ → List Instant → Computed (List Instant)
walk_forward zero next after until n found = broke
walk_forward (suc fuel) next after until n found =
    turn_forward after until found (next n)
      (λ found. walk_forward fuel next after until (n + 1) found)

-- out[-cap:] if len(out) > cap else out
unfoldable pub last_of : ℕ → List Instant → List Instant
last_of cap [] = []
last_of cap (x ∷ xs) =
    let rest = last_of cap xs in if leb (length (x ∷ xs)) cap then x ∷ xs else rest

abbrev pub max_dst_shift : ℕ
max_dst_shift = 10800000000

-- Where the walk forward starts.
unfoldable pub forward_start : (Instant → ℕ) → Instant → Instant → Instant
forward_start utcoffset after lower =
    let overlap = utcoffset (lower - max_dst_shift) - utcoffset lower in
    let start = lower - (overlap + 1000000) in if ltb start after then after else start

abbrev trim : ℕ → Computed (List Instant) → Computed (List Instant)
trim cap (computed out) = computed (last_of cap out)
trim cap expression_error = expression_error
trim cap broke = broke

module _ (c : Croniter) (expression tz : Text) where
  unfoldable pub after_walk_back :
      Instant → Instant → ℕ → Option (Instant × List Instant) → Computed (List Instant)
  after_walk_back after until cap none = broke
  after_walk_back after until cap (some (lower, found)) =
      let start = forward_start (c.utcoffset tz) after lower in
      trim cap (walk_forward (until + 2) (c.get_next expression tz start) after until 0 found)

  unfoldable pub fires_between : Instant → Instant → ℕ → Computed (List Instant)
  fires_between after until cap =
      if not (c.knows_zone tz)
      then expression_error
      else if not (c.is_cron expression)
      then expression_error
      else if leb until after
      then computed []
      else if leb cap 0
      then computed []
      else after_walk_back after until cap
          (walk_back (c.get_prev expression tz (until + 1)) after until cap 0 (after, []))
