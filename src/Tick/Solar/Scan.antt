-- ===== src/Tick/Solar/Scan.antt =====
-- tick/solar.py: the slots of a window.
use z4j_scheduler.Prelude.{
  ℕ, zero, suc, ◌+◌, ◌*◌, ◌≤◌, ◌<◌, ◌≡◌, refl, Option, none, some, List, [], ◌∷◌, ◌++◌, Text, All,
  All-append, All-map, length, length-append, arith, gt→leb, le→leb, le→ltb, lt→ltb,
}
use native.Mathlib.Decide.{dec_le}
use z4j_scheduler.Entry.{Instant}
use z4j_scheduler.Tick.Cron.Window.{Ascending, InWindow, IsWindow}
use z4j_scheduler.Tick.Solar.{
  SolarEvents, walk_days, drop_oldest, append_bounded, turn, scan, fires_between,
}

-- A found event comes after the instant asked about.
walk_days-lt :
    (event : ℕ → Option Instant) (after : Instant) (days cursor : ℕ) (t : Instant)
    → walk_days event after cursor days ≡ some t
    → after < t
unfolding walk_days
walk_days-lt event after zero cursor t h = cc
walk_days-lt event after (suc days) cursor t h =
    ground (arith, walk_days-lt event after days (cursor + 1) t)

Ascending-append :
    (xs : List Instant) (t : Instant)
    → Ascending xs
    → All (λ x. x < t) xs
    → Ascending (xs ++ (t ∷ []))
Ascending-append [] t h k = (tt, tt)
Ascending-append (x ∷ xs) t (a, h) (l, k) =
    (All-append (λ y. x < y) xs (t ∷ []) a (l, tt), Ascending-append xs t h k)

-- What the scan has found when it stands at `cursor`.
pub record Scanned (after until max_slots cursor : ℕ) (out : List Instant) : Type 0 where
  pub started : after ≤ cursor
  pub window : IsWindow after until max_slots out
  pub behind : All (λ x. x ≤ cursor) out

-- Dropping the oldest keeps what holds of the rest.
drop_oldest-Scanned :
    (after until max_slots t : ℕ) (xs : List Instant)
    → after ≤ t
    → All (InWindow after until) xs
    → Ascending xs
    → All (λ x. x ≤ t) xs
    → length xs ≤ suc max_slots
    → Scanned after until max_slots t (drop_oldest max_slots xs)
drop_oldest-Scanned after until max_slots t [] s h a b l = record {
  started = s;
  window = record { inside = tt; ascending = tt; few = omega arith };
  behind = tt;
}
drop_oldest-Scanned after until max_slots t (x ∷ xs) s (i, h) (o, a) (b, c) l =
    elim (dec_le (length (x ∷ xs)) max_slots) [
      | yes few ↦ rw (le→ltb max_slots (length (x ∷ xs)) few) (record {
        started = s;
        window = record { inside = (i, h); ascending = (o, a); few = few };
        behind = (b, c);
      })
      | no many ↦ rw (lt→ltb max_slots (length (x ∷ xs)) (omega arith)) (record {
        started = s;
        window = record { inside = h; ascending = a; few = omega arith };
        behind = c;
      })
    ]

append_bounded-Scanned :
    (after until max_slots cursor t : ℕ) (out : List Instant)
    → cursor < t
    → t ≤ until
    → Scanned after until max_slots cursor out
    → Scanned after until max_slots t (append_bounded max_slots out t)
append_bounded-Scanned after until max_slots cursor t out l u s =
    let s' : after ≤ cursor = s.started in
    drop_oldest-Scanned after until max_slots t (out ++ (t ∷ [])) (omega arith)
      (All-append (InWindow after until) out (t ∷ []) s.window.inside ((omega arith, u), tt))
      (Ascending-append out t s.window.ascending
        (All-map (λ x. x ≤ cursor) (λ x. x < t) (λ x h. omega arith) out s.behind))
      (All-append (λ x. x ≤ t) out (t ∷ [])
        (All-map (λ x. x ≤ cursor) (λ x. x ≤ t) (λ x h. omega arith) out s.behind)
        (omega arith, tt))
      (omega (arith, s.window.few, length-append out (t ∷ [])))

turn-IsWindow :
    (after until max_slots cursor : ℕ) (out : List Instant) (o : Option Instant)
    (rest : Instant → List Instant)
    → Scanned after until max_slots cursor out
    → ((t : Instant)
        → Scanned after until max_slots t (append_bounded max_slots out t)
        → IsWindow after until max_slots (rest t))
    → IsWindow after until max_slots (turn until o (cursor, out) rest)
turn-IsWindow after until max_slots cursor out none rest s k = s.window
turn-IsWindow after until max_slots cursor out (some t) rest s k = elim (dec_le t until) [
  | no past ↦ rw (lt→ltb until t (omega arith)) s.window
  | yes inside ↦ elim (dec_le t cursor) [
    | yes back ↦ rw (le→ltb until t inside, le→leb t cursor back) s.window
    | no up ↦
        rw (le→ltb until t inside, gt→leb t cursor (omega arith))
          (k t (append_bounded-Scanned after until max_slots cursor t out (omega arith) inside s))
  ]
]

scan-IsWindow :
    (event : ℕ → Option Instant) (after until max_slots ceiling cursor : ℕ) (out : List Instant)
    → Scanned after until max_slots cursor out
    → IsWindow after until max_slots (scan event until max_slots ceiling cursor out)
unfolding scan
scan-IsWindow event after until max_slots zero cursor out s = s.window
scan-IsWindow event after until max_slots (suc ceiling) cursor out s =
    turn-IsWindow after until max_slots cursor out _ _ s
      (λ t k. scan-IsWindow event after until max_slots ceiling t _ k)

-- For an expression that parses, the solar slots of a window are found, each in the window, in
-- strictly ascending order, and at most as many as the bound.
pub fires_between-IsWindow :
    (events : SolarEvents) (expression : Text) (event : ℕ → Option Instant)
    (after until max_slots : ℕ)
    → events expression ≡ some event
    → (out : List Instant) × (fires_between events expression after until max_slots ≡ some out)
      × IsWindow after until max_slots out
unfolding fires_between
fires_between-IsWindow events expression event after until max_slots h = (
  scan event until max_slots (max_slots * 8) after [],
  rw (h, fires_between) refl,
  scan-IsWindow event after until max_slots (max_slots * 8) after [] (record {
    started = omega arith;
    window = record { inside = tt; ascending = tt; few = omega arith };
    behind = tt;
  }),
)
