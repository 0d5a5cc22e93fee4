-- ===== src/Tick/Tests.antt =====
-- tick/interval.py and tick/catch_up.py: a schedule of five minutes.
use z4j_scheduler.Prelude.{◌+◌, ◌*◌, ◌/◌, ◌≤◌, ◌<◌, ◌≡◌, refl, List, [], ◌∷◌, ◌++◌, arith, codes}
use z4j_scheduler.Entry.{Instant}
use z4j_scheduler.Tick.Interval.{
  parse, parse_match, parse_unit, skip_spaces, span_digits, int_from, returned, aware, fires_in,
  fires_between, microseconds,
}
use z4j_scheduler.Tick.Interval.Slots.{newest, every_slot, fires_in-newest}
use z4j_scheduler.Tick.Interval.Grammar.{decimal, parse-decimal}
use z4j_scheduler.Tick.Interval.Next.{fire_one_missed-latest}
use z4j_scheduler.Tick.CatchUp.{plan, plan_catch_up}

five_minutes : parse (codes "5m") ≡ returned 300
unfolding parse parse_match parse_unit skip_spaces span_digits int_from
five_minutes = refl

five_fits : 0 < decimal (codes "5")
unfolding decimal
five_fits = omega arith

five_days : decimal (codes "5") * 60 / 86400 ≤ 999999999
unfolding decimal
five_days = omega arith

parse-decimal_example :
    parse (codes " " ++ (codes "5" ++ ([] ++ (codes "m" ++ []))))
    ≡ returned (decimal (codes "5") * 60)
parse-decimal_example =
    parse-decimal (codes " ") (codes "5") [] (codes "m") [] 60 (refl, tt) (refl, tt) tt tt refl
      (omega arith) five_fits five_days

fires_in-newest_example : fires_in 300 0 1000 2 ≡ newest 2 (every_slot 1000 300 0 1000)
fires_in-newest_example = fires_in-newest 0 1000 300 (omega arith) 2 1000 (omega arith)

fire_one_missed-latest_example :
    (missed : List Instant) × (t : Instant) × (fires_between
        (codes "5m")
        (aware 0)
        (aware 1000000000)
        10000
      ≡ returned missed)
    × (plan_catch_up (codes "fire_one_missed") missed ≡ plan (t ∷ []))
    × (0 < t)
    × (t ≤ 1000000000)
    × (1000000000 < t + 300 * microseconds)
fire_one_missed-latest_example =
    fire_one_missed-latest (codes "5m") 300 0 1000000000 10000 five_minutes (omega arith)
      (omega arith)
