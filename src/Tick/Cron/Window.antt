-- ===== src/Tick/Cron/Window.antt =====
-- tick/cron.py: what `fires_between` returns, where the iterators of croniter go on and do not repeat.
use z4j_scheduler.Prelude.{
  ℕ, zero, suc, ◌+◌, ◌≤◌, ◌<◌, ◌≡◌, subst, true, sym, lt→ltb, le→ltb, Option, none, some, List, [],
  ◌∷◌, Text, length, All, All-map, arith, gt→leb, le→leb,
}
use native.Mathlib.Decide.{dec_le, dec_lt, ℕ_discrete}
use z4j_scheduler.Entry.{Instant}
use z4j_scheduler.Tick.Cron.{
  Computed, computed, expression_error, broke, Croniter, insert, turn_back, turn_forward, walk_back,
  walk_forward, last_of, trim, after_walk_back, fires_between,
}

abbrev pub Ascending : List Instant → Type 0
Ascending [] = Unit
Ascending (x ∷ xs) = (All (λ y. x < y) xs) × Ascending xs

abbrev pub InWindow : Instant → Instant → Instant → Type 0
InWindow after until t = (after < t) × (t ≤ until)

pub insert-All :
    (P : Instant → Type 0) (t : Instant) (xs : List Instant) → P t → All P xs → All P (insert t xs)
unfolding insert
insert-All P t [] p h = (p, tt)
insert-All P t (x ∷ xs) p (q, h) = ground (arith, insert-All P t xs p h)

-- What is above a bound is above a smaller one.
pub All-above :
    (t x : Instant) (xs : List Instant) → t < x → All (λ y. x < y) xs → All (λ y. t < y) xs
All-above t x xs l h = All-map (λ y. x < y) (λ y. t < y) (λ y k. omega arith) xs h

pub insert-Ascending : (t : Instant) (xs : List Instant) → Ascending xs → Ascending (insert t xs)
unfolding insert
insert-Ascending t [] h = (tt, tt)
insert-Ascending t (x ∷ xs) (a, h) = elim (dec_lt t x) [
  | yes l ↦ ground (arith, All-above t x xs l a)
  | no m ↦ ground (arith, insert-Ascending t xs h, λ (l : x < t). insert-All (λ y. x < y) t xs l a)
]

pub last_of-All :
    (P : Instant → Type 0) (cap : ℕ) (xs : List Instant) → All P xs → All P (last_of cap xs)
unfolding last_of
last_of-All P cap [] h = tt
last_of-All P cap (x ∷ xs) (p, h) = ground (arith, last_of-All P cap xs h)

last_of-Ascending : (cap : ℕ) (xs : List Instant) → Ascending xs → Ascending (last_of cap xs)
unfolding last_of
last_of-Ascending cap [] h = tt
last_of-Ascending cap (x ∷ xs) (a, h) = ground (arith, last_of-Ascending cap xs h)

length-last_of : (cap : ℕ) (xs : List Instant) → length (last_of cap xs) ≤ cap
unfolding last_of
length-last_of cap [] = omega arith
length-last_of cap (x ∷ xs) = ground (arith, length-last_of cap xs)

-- What a walk has found: instants of the window, in ascending order.
abbrev Found : Instant → Instant → List Instant → Type 0
Found after until xs = (All (InWindow after until) xs) × Ascending xs

insert-Found :
    (after until t : Instant) (xs : List Instant)
    → after < t
    → t ≤ until
    → Found after until xs
    → Found after until (insert t xs)
insert-Found after until t xs l u (h, a) =
    (insert-All (InWindow after until) t xs (l, u) h, insert-Ascending t xs a)

abbrev FoundBack : Instant → Instant → Option (Instant × List Instant) → Type 0
FoundBack after until none = ⊥
FoundBack after until (some (lower, found)) = (after ≤ lower) × Found after until found

abbrev FoundForward : Instant → Instant → Computed (List Instant) → Type 0
FoundForward after until (computed out) = Found after until out
FoundForward after until expression_error = ⊥
FoundForward after until broke = ⊥

abbrev State : Instant → Instant → Instant × List Instant → Type 0
State after until (lower, found) = (after ≤ lower) × Found after until found

turn_back-FoundBack :
    (after until t : Instant) (state : Instant × List Instant)
    (rest : Instant × List Instant → Option (Instant × List Instant))
    → State after until state
    → ((s : Instant × List Instant) → State after until s → FoundBack after until (rest s))
    → FoundBack after until (turn_back after until state (some t) rest)
turn_back-FoundBack after until t (lower, found) rest (l, h) k = elim (dec_le t after) [
  | yes low ↦ rw (le→leb t after low) (l, h)
  | no up ↦ elim (dec_le t until) [
    | yes inside ↦
        rw (gt→leb t after (omega arith), le→leb t until inside)
          (k (t, insert t found)
            (omega arith, insert-Found after until t found (omega arith) inside h))
    | no out ↦
        rw (gt→leb t after (omega arith), gt→leb t until (omega arith))
          (k (t, found) (omega arith, h))
  ]
]

turn_forward-FoundForward :
    (after until t : Instant) (found : List Instant) (rest : List Instant → Computed (List Instant))
    → Found after until found
    → ((f : List Instant) → Found after until f → t ≤ until → FoundForward after until (rest f))
    → FoundForward after until (turn_forward after until found (some t) rest)
turn_forward-FoundForward after until t found rest h k = elim (dec_le t until) [
  | no out ↦ rw (lt→ltb until t (omega arith)) h
  | yes inside ↦ elim (dec_lt after t) [
    | yes up ↦
        rw (le→ltb until t inside, lt→ltb after t up)
          (k (insert t found) (insert-Found after until t found up inside h) inside)
    | no low ↦ rw (le→ltb until t inside, le→ltb after t (omega arith)) (k found h inside)
  ]
]

-- An iterator that always answers, and one whose answers go up.
pub record Answers (next : ℕ → Option Instant) : Type 0 where
  pub at : ℕ → Instant
  pub answer : (n : ℕ) → next n ≡ some (at n)

pub record Goes (next : ℕ → Option Instant) : Type 0 where
  pub answers : Answers next
  pub up : (n : ℕ) → answers.at n < answers.at (suc n)

at_least : {next : ℕ → Option Instant} (g : Goes next) (n : ℕ) → n ≤ g.answers.at n
at_least g zero = omega arith
at_least g (suc n) =
    let u : g.answers.at n < g.answers.at (suc n) = g.up n in
    let l : n ≤ g.answers.at n = at_least g n in climb n (g.answers.at n) (g.answers.at (suc n)) l u
  where
    climb : (n a b : ℕ) → n ≤ a → a < b → suc n ≤ b
    climb n a b l u = omega arith

reached : (n t : ℕ) {until : ℕ} → n ≤ t → t ≤ until → n + 1 ≤ until + 1
reached n t l u = omega arith

module _ (next : ℕ → Option Instant) (after until : Instant) where
  walk_back-FoundBack :
      Answers next
      → (bound n : ℕ) (state : Instant × List Instant) → State after until state
      → FoundBack after until (walk_back next after until bound n state)
  unfolding walk_back
  walk_back-FoundBack a zero n (lower, found) h = h
  walk_back-FoundBack a (suc bound) n state h =
      let rest = walk_back next after until bound (n + 1) in
      subst (λ o. FoundBack after until (turn_back after until state o rest)) (sym (a.answer n))
        (turn_back-FoundBack after until (a.at n) state rest h
          (walk_back-FoundBack a bound (n + 1)))

  walk_forward-FoundForward :
      (g : Goes next) (fuel n : ℕ) (found : List Instant)
      → n + fuel ≡ until + 2
      → n ≤ until + 1
      → Found after until found
      → FoundForward after until (walk_forward fuel next after until n found)
  unfolding walk_forward
  walk_forward-FoundForward g zero n found e l h = absurd (omega arith)
  walk_forward-FoundForward g (suc fuel) n found e l h =
      let rest = (λ (f : List Instant). walk_forward fuel next after until (n + 1) f) in
      subst (λ o. FoundForward after until (turn_forward after until found o rest))
        (sym (g.answers.answer n))
        (turn_forward-FoundForward after until (g.answers.at n) found rest h (λ f k inside.
          walk_forward-FoundForward g fuel (n + 1) f (omega arith)
            (reached n (g.answers.at n) (at_least g n) inside) k))

-- The slots of a window of croniter's are found, in order, each in the window, and at most the bound.
pub record IsWindow (after until bound : ℕ) (out : List Instant) : Type 0 where
  pub inside : All (InWindow after until) out
  pub ascending : Ascending out
  pub few : length out ≤ bound

abbrev pub Windowed : Instant → Instant → ℕ → Computed (List Instant) → Type 0
Windowed after until bound (computed out) = IsWindow after until bound out
Windowed after until bound expression_error = ⊥
Windowed after until bound broke = ⊥

trim-Windowed :
    (after until bound : ℕ) (r : Computed (List Instant))
    → FoundForward after until r
    → Windowed after until bound (trim bound r)
trim-Windowed after until bound (computed out) (h, a) = record {
  inside = last_of-All (InWindow after until) bound out h;
  ascending = last_of-Ascending bound out a;
  few = length-last_of bound out;
}
trim-Windowed after until bound expression_error h = absurd h
trim-Windowed after until bound broke h = absurd h

module _ (c : Croniter) (expression tz : Text) (after until bound : ℕ)
    (forward : (base : Instant) → Goes (c.get_next expression tz base)) where
  after_walk_back-Windowed :
      (r : Option (Instant × List Instant))
      → FoundBack after until r
      → Windowed after until bound (after_walk_back c expression tz after until bound r)
  unfolding after_walk_back
  after_walk_back-Windowed none h = absurd h
  after_walk_back-Windowed (some (lower, found)) (l, h) = trim-Windowed after until bound _ (
      walk_forward-FoundForward _ after until (forward _) (until + 2) 0 found (omega arith)
        (omega arith) h)

  -- For a known zone and a valid expression whose iterators always answer, and forwards with ever
  -- later instants, the cron slots of a window are found, each in the window, in strictly ascending
  -- order, and at most as many as the cap.
  pub fires_between-Windowed :
      Answers (c.get_prev expression tz (until + 1))
      → c.knows_zone tz ≡ true
      → c.is_cron expression ≡ true
      → Windowed after until bound (fires_between c expression tz after until bound)
  unfolding fires_between
  fires_between-Windowed back zone valid = elim (dec_le until after) [
    | yes past ↦
        rw (zone, valid, le→leb until after past)
          (record { inside = tt; ascending = tt; few = omega arith })
    | no ahead ↦ elim (ℕ_discrete bound 0) [
      | yes z ↦
          rw (zone, valid, gt→leb until after (omega arith), le→leb bound 0 (omega arith))
            (record { inside = tt; ascending = tt; few = omega arith })
      | no positive ↦
          rw (zone, valid, gt→leb until after (omega arith), gt→leb bound 0 (omega arith))
            (after_walk_back-Windowed _
              (walk_back-FoundBack _ after until back bound 0 (after, []) (omega arith, (tt, tt))))
    ]
  ]
