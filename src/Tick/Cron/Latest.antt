-- ===== src/Tick/Cron/Latest.antt =====
-- tick/cron.py: the slots that `fires_between` returns against the fires of the expression, where the
-- iterator backwards of croniter misses fires of an hour that the clocks repeat.
use z4j_scheduler.Prelude.{
  ℕ, ◌+◌, ◌≤◌, ◌<◌, ◌≡◌, ◌⊎◌, inl, inr, refl, sym, true, Option, none, some, List, [], Text, All,
  arith, gt→leb, le→leb,
}
use native.Mathlib.Decide.{dec_le, ℕ_discrete}
use z4j_scheduler.Entry.{Instant}
use z4j_scheduler.Tick.Cron.{
  Computed, computed, expression_error, broke, Croniter, trim, forward_start, after_walk_back,
  fires_between,
}
use z4j_scheduler.Tick.Cron.Window.{last_of-All, IsWindow, Windowed, fires_between-Windowed}
use z4j_scheduler.Tick.Cron.Kept.{last_of-Kept, Kept, is_in, above}
use z4j_scheduler.Tick.Cron.Walks.{
  Descends, Ascends, IsRepeated, Covers, Ahead, Later, pass-Covers, CoversForward, CoversBack,
  Walked, walk_forward-Covers, walk_back-CoversBack,
}

-- The slots of a window are its latest fires, as many as the bound allows, in order.
pub record AreLatest (F : Instant → Type 0) (after until cap : ℕ) (out : List Instant)
    : Type 0 where
  pub window : IsWindow after until cap out
  pub fires : All F out
  pub each : (f : Instant) → F f → after < f → f ≤ until → Kept cap f out

abbrev pub Latest : (Instant → Type 0) → ℕ → ℕ → ℕ → Computed (List Instant) → Type 0
Latest F after until cap (computed out) = AreLatest F after until cap out
Latest F after until cap expression_error = ⊥
Latest F after until cap broke = ⊥

abbrev Complete : (Instant → Type 0) → ℕ → ℕ → ℕ → Computed (List Instant) → Type 0
Complete F after until cap (computed out) =
    (All F out) × ((f : Instant) → F f → after < f → f ≤ until → Kept cap f out)
Complete F after until cap expression_error = Unit
Complete F after until cap broke = Unit

Latest-from :
    (F : Instant → Type 0) (after until cap : ℕ) (r : Computed (List Instant))
    → Windowed after until cap r
    → Complete F after until cap r
    → Latest F after until cap r
Latest-from F after until cap (computed out) w (h, k) = record { window = w; fires = h; each = k }
Latest-from F after until cap expression_error w c = w
Latest-from F after until cap broke w c = w

kept :
    (cap : ℕ) (f : Instant) (out : List Instant)
    → ((is_in f out ≡ true) ⊎ (cap ≤ above f out)) ⊎ ⊥
    → (is_in f out ≡ true) ⊎ (cap ≤ above f out)
kept cap f out (inl h) = h
kept cap f out (inr e) = absurd e

trim-Complete :
    (F : Instant → Type 0) (after until cap : ℕ) (r : Computed (List Instant))
    → CoversForward F after until cap r
    → Complete F after until cap (trim cap r)
trim-Complete F after until cap (computed out) c = (
  last_of-All F cap out c.fires,
  λ f k l u. last_of-Kept cap f out c.ascending (kept cap f out (c.each f k l u)),
)
trim-Complete F after until cap expression_error c = tt
trim-Complete F after until cap broke c = tt

module _ (c : Croniter) (expression tz : Text) (F : Instant → Type 0) (after until cap : ℕ)
    (forward : (base : Instant) → Ascends F (c.get_next expression tz base))
    (backward : Descends F after (until + 1) (c.get_prev expression tz (until + 1)))
    (sees : (f : Instant)
      → F f
      → after < f
      → f ≤ until
      → ((n : ℕ) × (backward.answers.at n ≡ f))
        ⊎ IsRepeated
            (c.utcoffset tz)
            backward.answers.at
            (λ base. (forward base).goes.answers.at)
            f) where
  from_start :
      (lower : Instant) (found : List Instant)
      → Covers F after until cap
          (Ahead F after until cap
            (c.utcoffset tz)
            (λ base. (forward base).goes.answers.at)
            (c.get_prev expression tz (until + 1))
            backward
            sees
            lower)
          found
      → Covers F after until cap
          (Later F after until cap _ (forward (forward_start (c.utcoffset tz) after lower)) 0)
          found
  from_start lower found h =
      pass-Covers F after until cap found (λ f l u (m, e). (m, omega arith, e)) h

  after_walk_back-Complete :
      (r : Option (Instant × List Instant))
      → CoversBack F after until cap
          (c.utcoffset tz)
          (λ base. (forward base).goes.answers.at)
          (c.get_prev expression tz (until + 1))
          backward
          sees
          r
      → Complete F after until cap (after_walk_back c expression tz after until cap r)
  unfolding after_walk_back
  after_walk_back-Complete none h = tt
  after_walk_back-Complete (some (lower, found)) h = trim-Complete F after until cap _ (
      walk_forward-Covers F after until cap _ (forward (forward_start (c.utcoffset tz) after lower))
        (until + 2) 0 found (from_start lower found h))

  walked :
      Walked F after until cap
        (c.utcoffset tz)
        (λ base. (forward base).goes.answers.at)
        (c.get_prev expression tz (until + 1))
        backward
        sees
        0
        after
        []
  walked = record {
    fires = tt;
    ascending = tt;
    later = tt;
    size = refl;
    got = λ m h. absurd (omega arith);
    from = tt;
    last = inl refl;
  }

  fires_between-Complete :
      c.knows_zone tz ≡ true
      → c.is_cron expression ≡ true
      → Complete F after until cap (fires_between c expression tz after until cap)
  unfolding fires_between
  fires_between-Complete zone valid = elim (dec_le until after) [
    | yes past ↦ rw (zone, valid, le→leb until after past) (tt, λ f k l u. absurd (omega arith))
    | no ahead ↦ elim (ℕ_discrete cap 0) [
      | yes z ↦
          rw (zone, valid, gt→leb until after (omega arith), le→leb cap 0 (omega arith))
            (tt, λ f k l u. inr (sym z, tt))
      | no positive ↦
          rw (zone, valid, gt→leb until after (omega arith), gt→leb cap 0 (omega arith))
            (after_walk_back-Complete _ (
              walk_back-CoversBack F after until cap (c.utcoffset tz)
                (λ base. (forward base).goes.answers.at) _ backward sees cap 0 after []
                (omega arith) walked))
    ]
  ]

  -- For a known zone and a valid expression, where the answers of both iterators are fires of it,
  -- go down and up, and miss a fire of the window backwards only if the iterator forwards gives it
  -- from every earlier base and the next later answer backwards is less than a second further on
  -- than the clocks were put back in the three hours before that answer, the cron slots of a window
  -- are found: each is a fire of the expression in the window, they ascend and are at most as many
  -- as the cap, and a fire of the window that is not among them is earlier than all of them, which
  -- are then as many as the cap.
  pub fires_between-Latest :
      c.knows_zone tz ≡ true
      → c.is_cron expression ≡ true
      → Latest F after until cap (fires_between c expression tz after until cap)
  fires_between-Latest zone valid =
      Latest-from F after until cap _
        (fires_between-Windowed c expression tz after until cap (λ base. (forward base).goes)
          backward.answers zone valid)
        (fires_between-Complete zone valid)
