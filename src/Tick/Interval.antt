-- ===== src/Tick/Interval.antt =====
-- tick/interval.py: interval expressions, their next fire, and the slots of a window. A `timedelta`
-- of whole seconds is the number of its seconds.
pub mod Slots
pub mod Next
pub mod Grammar
use z4j_scheduler.Prelude.{
  ℕ, zero, suc, ◌+◌, ◌-◌, ◌*◌, ◌/◌, ◌%◌, max, Bool, true, false, not, Option, none, some, List, [],
  ◌∷◌, map, Text, leb, ltb, ◌==◌, ◌&&◌, ◌||◌, if◌then◌else◌, non_empty, length,
}
use z4j_scheduler.Entry.{Instant}

pub data TickError : Type 0 where
  interval_expression_error value_error overflow_error : TickError

pub data Attempt {ℓ} (A : Type ℓ) : Type ℓ where
  returned : A → Attempt A
  raised : TickError → Attempt A

infixl 5 ◌>>=◌
abbrev pub ◌>>=◌ : {A B : Type 0} → Attempt A → (A → Attempt B) → Attempt B
m >>= f = elim m [ returned a ↦ f a | raised e ↦ raised e ]

-- An aware datetime is in UTC.
pub data Datetime : Type 0 where
  naive aware : Instant → Datetime

-- `\s` on ASCII
abbrev pub is_space : ℕ → Bool
is_space c = (leb 9 c && leb c 13) || (leb 28 c && leb c 32)

-- `\d` on ASCII
abbrev pub is_digit : ℕ → Bool
is_digit c = leb 48 c && leb c 57

-- The text after `\s*`.
unfoldable pub skip_spaces : Text → Text
skip_spaces [] = []
skip_spaces (c ∷ s) = if is_space c then skip_spaces s else c ∷ s

-- What `\d+` matches, and the text after it.
unfoldable pub span_digits : Text → Text × Text
span_digits [] = ([], [])
span_digits (c ∷ s) =
    let (ds, rest) = span_digits s in if is_digit c then (c ∷ ds, rest) else ([], c ∷ s)

-- `_UNIT_SECONDS[unit]`, for the characters of `[smhd]`.
abbrev pub unit_seconds : ℕ → Option ℕ
unit_seconds c =
    if c == 115
    then some 1
    else if c == 109
    then some 60
    else if c == 104
    then some (60 * 60)
    else if c == 100
    then some (60 * 60 * 24)
    else none

-- What `([smhd]?)\s*$` matches: the seconds of the unit, `s` when there is none.
unfoldable pub parse_unit : Text → Option ℕ
parse_unit [] = some 1
parse_unit (c ∷ s) =
    let end = skip_spaces s in
    elim (unit_seconds c) [ none ↦ none | some u ↦ if non_empty end then none else some u ]

-- `int(...)` of a row of digits.
unfoldable pub int_from : ℕ → Text → ℕ
int_from n [] = n
int_from n (d ∷ ds) = int_from (10 * n + (d - 48)) ds

-- The digits that `int` takes.
abbrev pub max_str_digits : ℕ
max_str_digits = 4300

-- `int` of a row of digits.
abbrev pub int : Text → Attempt ℕ
int ds = if ltb max_str_digits (length ds) then raised value_error else returned (int_from 0 ds)

-- `timedelta(seconds=n)`
abbrev pub timedelta : ℕ → Attempt ℕ
timedelta n = if ltb 999999999 (n / 86400) then raised overflow_error else returned n

-- `parse` from the groups of the match on.
unfoldable pub parse_match : Text × Text → Attempt ℕ
parse_match (ds, rest) =
    if not (non_empty ds)
    then raised interval_expression_error
    else elim (parse_unit (skip_spaces rest)) [
      | none ↦ raised interval_expression_error
      | some u ↦
          int ds >>= λ n. if n == 0 then raised interval_expression_error else timedelta (n * u)
    ]

unfoldable pub parse : Text → Attempt ℕ
parse expression = parse_match (span_digits (skip_spaces expression))

abbrev pub microseconds : ℕ
microseconds = 1000000

-- The last microsecond of the year 9999.
abbrev pub max_instant : Instant
max_instant = 253402300799999999

-- `at + interval`
abbrev pub plus : Instant → ℕ → Attempt Datetime
plus at interval =
    let sum = at + interval * microseconds in
    if ltb max_instant sum then raised overflow_error else returned (aware sum)

-- `datetime.fromtimestamp(s, tz=...)`
abbrev pub from_timestamp : ℕ → Attempt Datetime
from_timestamp s =
    if ltb max_instant (s * microseconds)
    then raised value_error
    else returned (aware (s * microseconds))

-- The first boundary of the interval after a second.
abbrev pub next_boundary : ℕ → ℕ → ℕ
next_boundary interval_s anchor_s = (anchor_s / interval_s + 1) * interval_s

unfoldable pub next_fire : Text → Option Datetime → Datetime → Attempt Datetime
next_fire expression last_fire_at anchor_at = parse expression >>= λ interval. elim last_fire_at [
  | some (naive t) ↦ raised value_error
  | some (aware t) ↦ plus t interval
  | none ↦ elim anchor_at [
    | naive t ↦ raised value_error
    | aware t ↦ from_timestamp (next_boundary interval (t / microseconds))
  ]
]

-- `[after + k * interval for k in range(k, k + n)]`
unfoldable pub slots_from : Instant → ℕ → ℕ → ℕ → List Instant
slots_from after interval k zero = []
slots_from after interval k (suc n) = (after + k * interval) ∷ slots_from after interval (suc k) n

-- The slots of a window, with the interval in microseconds. A negative span is 0 here: both are below
-- the interval.
unfoldable pub fires_in : ℕ → Instant → Instant → ℕ → List Instant
fires_in interval after until cap =
    let span = until - after in
    let k_max = span / interval in
    let k_start = max 1 (k_max + 1 - cap) in
    if interval == 0
    then []
    else if ltb span interval
    then []
    else if ltb k_max 1
    then []
    else slots_from after interval k_start (k_max + 1 - k_start)

unfoldable pub fires_between : Text → Datetime → Datetime → ℕ → Attempt (List Instant)
fires_between expression (naive after) until cap = raised value_error
fires_between expression (aware after) (naive until) cap = raised value_error
fires_between expression (aware after) (aware until) cap =
    parse expression >>= λ interval. returned (fires_in (interval * microseconds) after until cap)
