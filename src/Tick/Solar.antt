-- ===== src/Tick/Solar.antt =====
-- tick/solar.py: the next solar event and the events of a window. The parser of the expression and the
-- event functions of astral are a parameter: for an expression, the event of a day, where there is one.
pub mod Scan
use z4j_scheduler.Prelude.{
  ℕ, zero, suc, ◌+◌, ◌-◌, ◌*◌, ◌/◌, Bool, true, false, Option, none, some, List, [], ◌∷◌, ◌++◌,
  Text, leb, ltb, ◌||◌, length, if◌then◌else◌,
}
use z4j_scheduler.Entry.{Instant}

abbrev pub SolarEvents : Type 0
SolarEvents = Text → Option (ℕ → Option Instant)

abbrev pub microseconds_of_day : ℕ
microseconds_of_day = 86400000000

-- candidate > after
abbrev pub is_after : Option Instant → Instant → Bool
is_after none after = false
is_after (some t) after = ltb after t

-- The walk day by day from `cursor`. A day without an event is skipped.
unfoldable pub walk_days : (ℕ → Option Instant) → Instant → ℕ → ℕ → Option Instant
walk_days event after cursor zero = none
walk_days event after cursor (suc days) =
    let rest = walk_days event after (cursor + 1) days in
    if is_after (event cursor) after then event cursor else rest

abbrev pub max_days_ahead : ℕ
max_days_ahead = 365

-- Nothing where the expression does not parse, then nothing where no event is found.
unfoldable pub next_solar_fire : SolarEvents → Text → Instant → Option (Option Instant)
next_solar_fire events expression after = elim (events expression) [
  | none ↦ none
  | some event ↦ some (walk_days event after (after / microseconds_of_day) max_days_ahead)
]

-- deque(out, maxlen=n).append(t)
abbrev pub drop_oldest : ℕ → List Instant → List Instant
drop_oldest n [] = []
drop_oldest n (x ∷ xs) = if ltb n (length (x ∷ xs)) then xs else x ∷ xs

abbrev pub append_bounded : ℕ → List Instant → Instant → List Instant
append_bounded n out t = drop_oldest n (out ++ (t ∷ []))

-- A turn of the scan, with what the rest of the scan gives.
abbrev pub turn :
    Instant → Option Instant → Instant × List Instant → (Instant → List Instant) → List Instant
turn until none (cursor, out) rest = out
turn until (some t) (cursor, out) rest = if ltb until t || leb t cursor then out else rest t

-- The loop that scans the window, at most `ceiling` times.
unfoldable pub scan : (ℕ → Option Instant) → Instant → ℕ → ℕ → Instant → List Instant → List Instant
scan event until max_slots zero cursor out = out
scan event until max_slots (suc ceiling) cursor out =
    turn until (walk_days event cursor (cursor / microseconds_of_day) max_days_ahead) (cursor, out)
      (λ t. scan event until max_slots ceiling t (append_bounded max_slots out t))

unfoldable pub fires_between : SolarEvents → Text → Instant → Instant → ℕ → Option (List Instant)
fires_between events expression after until max_slots = elim (events expression) [
  | none ↦ none
  | some event ↦ some (scan event until max_slots (max_slots * 8) after [])
]
