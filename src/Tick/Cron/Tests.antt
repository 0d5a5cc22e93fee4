-- ===== src/Tick/Cron/Tests.antt =====
-- tick/cron.py: an expression that fires at every instant, of which the iterator backwards misses one.
use z4j_scheduler.Prelude.{
  ℕ, ◌+◌, ◌-◌, ◌<◌, ◌≤◌, ◌≡◌, ◌⊎◌, inl, inr, refl, true, some, codes, arith, ltb, if◌then◌else◌,
}
use native.Mathlib.Decide.{dec_lt, ℕ_discrete}
use z4j_scheduler.Entry.{Instant}
use z4j_scheduler.Tick.Cron.{Croniter, fires_between}
use z4j_scheduler.Tick.Cron.Walks.{Ascends, Descends, IsRepeated}
use z4j_scheduler.Tick.Cron.Latest.{Latest, fires_between-Latest}

-- The answers backwards pass over the instant 5.
abbrev before : Instant → ℕ → Instant
before t n = if ltb 5 (t - n - 1) then t - n - 1 else t - n - 2

abbrev every_instant : Croniter
every_instant = record {
  knows_zone = λ z. true;
  is_cron = λ x. true;
  get_next = λ x z t n. some (t + n + 1);
  get_prev = λ x z t n. some (before t n);
  utcoffset = λ z t. 0;
}

-- Its fires are all the instants.
abbrev AnyInstant : Instant → Type 0
AnyInstant t = Unit

forward :
    (base : Instant)
    → Ascends AnyInstant (every_instant.get_next (codes "* * * * *") (codes "UTC") base)
forward base = record {
  goes = record {
    answers = record { at = λ n. base + n + 1; answer = λ n. refl };
    up = λ n. omega arith;
  };
  fires = λ n. tt;
}

backward : Descends AnyInstant 3 10 (every_instant.get_prev (codes "* * * * *") (codes "UTC") 10)
backward = record {
  answers = record { at = λ n. before 10 n; answer = λ n. refl };
  fires = λ n h. tt;
  under = λ n. ground arith;
  down = λ n. ground arith;
  strict = λ n h. ground (arith, h);
}

sees :
    (f : Instant)
    → AnyInstant f
    → 3 < f
    → f ≤ 9
    → ((n : ℕ) × (backward.answers.at n ≡ f))
      ⊎ IsRepeated
          (every_instant.utcoffset (codes "UTC"))
          backward.answers.at
          (λ base. (forward base).goes.answers.at)
          f
unfolding backward forward
sees f k l u = elim (dec_lt 5 f) [
  | yes up ↦ inl (10 - f - 1, ground arith)
  | no low ↦ elim (ℕ_discrete f 5) [
    | no less ↦ inl (10 - f - 2, ground arith)
    | yes five ↦ inr (record {
      given = λ base h. (f - base - 1, omega arith);
      close = λ n h g. ground (arith, h, g, five);
    })
  ]
]

fires_between-Latest_example :
    Latest AnyInstant 3 9 4 (fires_between every_instant (codes "* * * * *") (codes "UTC") 3 9 4)
fires_between-Latest_example =
    fires_between-Latest every_instant (codes "* * * * *") (codes "UTC") AnyInstant 3 9 4 forward
      backward sees refl refl
