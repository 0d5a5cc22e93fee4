-- ===== src/Tick/Interval/Next.antt =====
-- tick/interval.py: the next fire of an interval schedule, and the missed fires that tick/catch_up.py
-- dispatches.
use z4j_scheduler.Prelude.{
  ℕ, zero, suc, ◌+◌, ◌-◌, ◌*◌, ◌/◌, ◌%◌, ◌≤◌, ◌<◌, ◌≡◌, refl, ap, ◌∙◌, max, not, Bool, true, false,
  Option, none, some, List, [], ◌∷◌, arith, ◌==◌, if◌then◌else◌, le→ltb, Text, text_eq, codes,
  non_empty,
}
use native.Mathlib.Nat.{
  le-div_iff_mul-le, div-mul-le_self, lt-div-mul-add, mul-mod_left, mul_assoc, mul-pos,
  mul-le-mul_right,
}
use z4j_scheduler.Entry.{Instant}
use z4j_scheduler.Tick.Interval.{
  Attempt, returned, raised, ◌>>=◌, Datetime, aware, parse, parse_match, timedelta, int, parse_unit,
  span_digits, skip_spaces, unit_seconds, microseconds, max_instant, next_boundary, next_fire,
  fires_between, fires_in, slots_from, interval_expression_error,
}
use z4j_scheduler.Tick.Interval.Slots.{fires_in-some}
use z4j_scheduler.Tick.CatchUp.{plan, plan_catch_up, last_one}

unit-positive : (c u : ℕ) → unit_seconds c ≡ some u → 0 < u
unit-positive c u h = ground arith

parse_unit-positive : (s : Text) (u : ℕ) → parse_unit s ≡ some u → 0 < u
unfolding parse_unit
parse_unit-positive [] u h = ground arith
parse_unit-positive (c ∷ s) u h = ground (arith, unit-positive c u)

scaled-positive :
    (r : Attempt ℕ) (u m : ℕ)
    → 0 < u
    → (r >>= λ n. if n == 0 then raised interval_expression_error else timedelta (n * u))
      ≡ returned m
    → 0 < m
scaled-positive (raised e) u m pos h = cc
scaled-positive (returned zero) u m pos h = cc
scaled-positive (returned (suc n)) u m pos h =
    ground (arith, mul-pos {m = suc n} {n = u} (omega arith) pos)

parse_match-positive : (p : Text × Text) (n : ℕ) → parse_match p ≡ returned n → 0 < n
unfolding parse_match
parse_match-positive (ds, rest) n h =
    go (non_empty ds) (parse_unit (skip_spaces rest)) (parse_unit-positive (skip_spaces rest)) h
  where
    go :
        (b : Bool) (o : Option ℕ)
        → ((u : ℕ) → o ≡ some u → 0 < u)
        → (if not b then raised interval_expression_error else elim o [
          | none ↦ raised interval_expression_error
          | some u ↦
              int ds >>= λ n. if n == 0 then raised interval_expression_error else timedelta (n * u)
        ])
          ≡ returned n
        → 0 < n
    go false o units h = cc
    go true none units h = cc
    go true (some u) units h = scaled-positive (int ds) u n (units u refl) h

-- No expression parses to an interval of length zero.
pub parse-positive : (e : Text) (n : ℕ) → parse e ≡ returned n → 0 < n
unfolding parse
parse-positive e n h = parse_match-positive (span_digits (skip_spaces e)) n h

next_boundary-bounds :
    (interval anchor : ℕ)
    → 0 < interval
    → (anchor < next_boundary interval anchor) × (next_boundary interval anchor ≤ anchor + interval)
next_boundary-bounds interval anchor pos =
    omega (arith, div-mul-le_self anchor interval, lt-div-mul-add {a = anchor} {b = interval} pos)

from_boundary :
    (interval t : ℕ)
    → 0 < interval
    → (t < next_boundary interval (t / 1000000) * 1000000)
      × (next_boundary interval (t / 1000000) * 1000000 ≤ t + interval * 1000000)
from_boundary interval t pos = omega (arith, next_boundary-bounds interval (t / 1000000) pos)

boundary-aligned : (interval s : ℕ) → (s + 1) * interval * 1000000 % (interval * 1000000) ≡ 0
boundary-aligned interval s =
    ap (λ n. n % (interval * 1000000)) (mul_assoc (s + 1) interval 1000000)
    ∙ mul-mod_left (s + 1) (interval * 1000000)

-- The first fire of an interval schedule with an aware anchor is a multiple of the interval since
-- the epoch, strictly after the anchor and at most one interval after it, when the anchor plus the
-- interval is not after the year 9999.
pub first_fire-bounds :
    (e : Text) (interval t : ℕ)
    → parse e ≡ returned interval
    → t + interval * microseconds ≤ max_instant
    → (n : Instant) × (next_fire e none (aware t) ≡ returned (aware n))
      × (t < n)
      × (n ≤ t + interval * microseconds)
      × (n % (interval * microseconds) ≡ 0)
unfolding next_fire
first_fire-bounds e interval t parsed fits =
    let n = next_boundary interval (t / microseconds) * microseconds in
    let b = from_boundary interval t (parse-positive e interval parsed) in
    (
      n,
      rw (parsed, le→ltb max_instant n (omega (arith, b.1, fits))) refl,
      b.0,
      b.1,
      boundary-aligned interval (t / microseconds / interval),
    )

-- An interval schedule that has fired at an aware instant fires again exactly one interval later,
-- which is strictly later, when that is not after the year 9999.
pub next_fire-after :
    (e : Text) (interval t : ℕ) (anchor : Datetime)
    → parse e ≡ returned interval
    → t + interval * microseconds ≤ max_instant
    → (next_fire e (some (aware t)) anchor ≡ returned (aware (t + interval * microseconds)))
      × (t < t + interval * microseconds)
unfolding next_fire
next_fire-after e interval t anchor parsed fits = (
  rw (parsed, le→ltb max_instant (t + interval * microseconds) fits) refl,
  omega (arith, parse-positive e interval parsed),
)

last_one-slots :
    (after interval k n : ℕ)
    → last_one (slots_from after interval k (suc n)) ≡ (after + (k + n) * interval) ∷ []
unfolding last_one slots_from
last_one-slots after interval k zero = ap (λ i. (after + i * interval) ∷ []) (omega arith)
last_one-slots after interval k (suc n) =
    last_one-slots after interval (suc k) n ∙ ap (λ i. (after + i * interval) ∷ []) (omega arith)

last_of_window :
    (after until interval cap : ℕ)
    → 0 < interval
    → 1 ≤ cap
    → 1 ≤ (until - after) / interval
    → last_one (fires_in interval after until cap)
      ≡ (after + (until - after) / interval * interval) ∷ []
last_of_window after until interval cap pos kept some_slot =
    let q = (until - after) / interval in
    let k = max 1 (q + 1 - cap) in
    ap last_one (fires_in-some after until interval pos cap some_slot)
    ∙ ap (λ n. last_one (slots_from after interval k n)) {y = suc (q - k)}
        (omega (arith, kept, some_slot))
    ∙ last_one-slots after interval k (q - k)
    ∙ ap (λ i. (after + i * interval) ∷ []) (omega (arith, kept, some_slot))

plan-one :
    (missed : List Instant) (t : Instant)
    → last_one missed ≡ t ∷ []
    → plan_catch_up (codes "fire_one_missed") missed ≡ plan (t ∷ [])
unfolding plan_catch_up last_one text_eq
plan-one [] t h = cc
plan-one (x ∷ xs) t h = ap plan h

-- For an aware window of at least one interval and a positive cap, `fire_one_missed` over the slots
-- of `fires_between` dispatches one slot: it is after the start of the window, not after its end,
-- and one interval after it the window is over.
pub fire_one_missed-latest :
    (e : Text) (interval after until cap : ℕ)
    → parse e ≡ returned interval
    → 1 ≤ cap
    → after + interval * microseconds ≤ until
    → (missed : List Instant) × (t : Instant) × (fires_between e (aware after) (aware until) cap
        ≡ returned missed)
      × (plan_catch_up (codes "fire_one_missed") missed ≡ plan (t ∷ []))
      × (after < t)
      × (t ≤ until)
      × (until < t + interval * microseconds)
unfolding fires_between
fire_one_missed-latest e interval after until cap parsed kept missed_one =
    let i = interval * microseconds in
    let pos : 0 < i = omega (arith, parse-positive e interval parsed) in
    let q = (until - after) / i in
    let some_slot : 1 ≤ q =
      (le-div_iff_mul-le {k = i} {x = 1} {y = until - after} pos).1 (omega (arith, missed_one)) in
    let floor = div-mul-le_self (until - after) i in
    let ceil = lt-div-mul-add {a = until - after} {b = i} pos in
    (
      fires_in i after until cap,
      after + q * i,
      rw parsed refl,
      plan-one _ _ (last_of_window after until i cap pos kept some_slot),
      omega (arith, pos, mul-le-mul_right i some_slot),
      omega (arith, floor, missed_one),
      omega (arith, ceil, missed_one),
    )
