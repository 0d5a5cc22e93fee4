-- ===== src/Tick/Interval/Grammar.antt =====
-- tick/interval.py: the texts of the form '<int>[s|m|h|d]' and what they parse to.
use z4j_scheduler.Prelude.{
  ℕ, suc, ◌+◌, ◌-◌, ◌*◌, ◌/◌, ◌^◌, ◌≤◌, ◌<◌, ◌≡◌, refl, ap, ◌∙◌, Bool, true, false, not, Option,
  none, some, [], ◌∷◌, ◌++◌, arith, ◌==◌, length, le→ltb, All, Text, non_empty,
}
use native.Mathlib.Nat.{pow-succ'}
use z4j_scheduler.Tick.Interval.{
  returned, is_space, is_digit, skip_spaces, span_digits, unit_seconds, parse_unit, int_from,
  max_str_digits, parse, parse_match,
}

-- The positional value of a row of digits.
unfoldable pub decimal : Text → ℕ
decimal [] = 0
decimal (d ∷ ds) = (d - 48) * 10 ^ length ds + decimal ds

-- The seconds of a unit's text, which may be empty.
abbrev pub unit_of : Text → Option ℕ
unit_of [] = some 1
unit_of (c ∷ []) = unit_seconds c
unit_of (c ∷ d ∷ s) = none

abbrev pub AreSpaces : Text → Type 0
AreSpaces = All (λ c. is_space c ≡ true)

abbrev pub AreDigits : Text → Type 0
AreDigits = All (λ c. is_digit c ≡ true)

skip-append : (w s : Text) → AreSpaces w → skip_spaces (w ++ s) ≡ skip_spaces s
unfolding skip_spaces
skip-append [] s h = refl
skip-append (c ∷ w) s h = ground (arith, h.0, skip-append w s h.1)

skip-all : (w : Text) → AreSpaces w → skip_spaces w ≡ []
unfolding skip_spaces
skip-all [] h = refl
skip-all (c ∷ w) h = ground (arith, h.0, skip-all w h.1)

skip-digits : (ds s : Text) → AreDigits ds → non_empty ds ≡ true → skip_spaces (ds ++ s) ≡ ds ++ s
unfolding skip_spaces
skip-digits [] s h some_digit = cc
skip-digits (d ∷ ds) s h some_digit = ground (arith, h.0)

-- Whether a text goes on without a digit.
abbrev ends_digits : Text → Bool
ends_digits [] = true
ends_digits (c ∷ s) = not (is_digit c)

span-plain : (s : Text) → ends_digits s ≡ true → span_digits s ≡ ([], s)
unfolding span_digits
span-plain [] h = refl
span-plain (c ∷ s) h = ground (arith, h)

span-append : (ds s : Text) → AreDigits ds → ends_digits s ≡ true → span_digits (ds ++ s) ≡ (ds, s)
unfolding span_digits
span-append [] s h plain = span-plain s plain
span-append (d ∷ ds) s h plain = rw (span-append ds s h.1 plain, h.0) refl

unit-plain : (c u : ℕ) (s : Text) → unit_seconds c ≡ some u → ends_digits (c ∷ s) ≡ true
unit-plain c u s h = ground arith

tail-plain :
    (w unit v : Text) (u : ℕ)
    → AreSpaces w
    → AreSpaces v
    → unit_of unit ≡ some u
    → ends_digits (w ++ (unit ++ v)) ≡ true
tail-plain [] [] [] u h k is = refl
tail-plain [] [] (c ∷ v) u h k is = ground (arith, k.0)
tail-plain [] (c ∷ []) v u h k is = unit-plain c u v is
tail-plain [] (c ∷ d ∷ s) v u h k is = cc
tail-plain (c ∷ w) unit v u h k is = ground (arith, h.0)

unit-not_space : (c u : ℕ) → unit_seconds c ≡ some u → is_space c ≡ false
unit-not_space c u h = ground arith

unit-parsed :
    (unit v : Text) (u : ℕ)
    → AreSpaces v
    → unit_of unit ≡ some u
    → parse_unit (skip_spaces (unit ++ v)) ≡ some u
unfolding parse_unit skip_spaces
unit-parsed [] v u k is = rw (skip-all v k) is
unit-parsed (c ∷ []) v u k is = ground (arith, unit-not_space c u is, skip-all v k, is)
unit-parsed (c ∷ d ∷ s) v u k is = cc

shifted : (n d p q r : ℕ) → q ≡ 10 * p → (10 * n + d) * p + r ≡ n * q + (d * p + r)
shifted n d p q r h = rw h (omega arith)

int_from-decimal : (n : ℕ) (ds : Text) → int_from n ds ≡ n * 10 ^ length ds + decimal ds
unfolding int_from decimal
int_from-decimal n [] = omega arith
int_from-decimal n (d ∷ ds) =
    int_from-decimal (10 * n + (d - 48)) ds
    ∙ shifted n (d - 48) (10 ^ length ds) (10 ^ suc (length ds)) (decimal ds)
        (pow-succ' 10 (length ds))

digits-filled : (ds : Text) → 0 < decimal ds → non_empty ds ≡ true
unfolding decimal
digits-filled [] h = ground arith
digits-filled (d ∷ ds) h = refl

match-decimal :
    (ds rest : Text) (u : ℕ)
    → parse_unit (skip_spaces rest) ≡ some u
    → length ds ≤ max_str_digits
    → 0 < decimal ds
    → decimal ds * u / 86400 ≤ 999999999
    → parse_match (ds, rest) ≡ returned (decimal ds * u)
unfolding parse_match
match-decimal ds rest u unit short pos fits =
    let filled = digits-filled ds pos in
    let value : int_from 0 ds ≡ decimal ds = omega (arith, int_from-decimal 0 ds) in
    let nonzero : (decimal ds == 0) ≡ false = ground (arith, pos) in
    rw
      (
        filled,
        unit,
        le→ltb max_str_digits (length ds) short,
        value,
        nonzero,
        le→ltb 999999999 (decimal ds * u / 86400) fits,
      )
      refl

-- A row of ASCII digits with ASCII spaces before it, after it and after an optional unit parses to
-- its decimal value times the seconds of the unit, when the digits are at most 4300, the value is
-- positive and the interval has at most 999999999 days.
pub parse-decimal :
    (w ds x unit v : Text) (u : ℕ)
    → AreSpaces w
    → AreDigits ds
    → AreSpaces x
    → AreSpaces v
    → unit_of unit ≡ some u
    → length ds ≤ max_str_digits
    → 0 < decimal ds
    → decimal ds * u / 86400 ≤ 999999999
    → parse (w ++ (ds ++ (x ++ (unit ++ v)))) ≡ returned (decimal ds * u)
unfolding parse
parse-decimal w ds x unit v u hw hd hx hv is short pos fits =
    ap (λ s. parse_match (span_digits s))
      (skip-append w (ds ++ (x ++ (unit ++ v))) hw
        ∙ skip-digits ds (x ++ (unit ++ v)) hd (digits-filled ds pos))
    ∙ ap parse_match (span-append ds (x ++ (unit ++ v)) hd (tail-plain x unit v u hx hv is))
    ∙ match-decimal ds (x ++ (unit ++ v)) u
        (ap parse_unit (skip-append x (unit ++ v) hx) ∙ unit-parsed unit v u hv is) short pos fits
