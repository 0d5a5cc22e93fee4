-- ===== src/Tick/Cron/Kept.antt =====
-- tick/cron.py: what `insert` and `last_of` have of an instant.
use z4j_scheduler.Prelude.{
  ℕ, suc, ◌≤◌, ◌<◌, ◌≡◌, ◌⊎◌, inl, inr, refl, sym, subst, Bool, true, false, List, [], ◌∷◌, length,
  All, arith, gt→leb, le→leb, le→ltb, ◌==◌, ==_iff, ◌||◌, ltb, if◌then◌else◌, Bool-cases,
}
use native.Mathlib.Decide.{dec_le, dec_lt}
use z4j_scheduler.Entry.{Instant}
use z4j_scheduler.Tick.Cron.{insert, last_of}
use z4j_scheduler.Tick.Cron.Window.{Ascending, All-above, last_of-All}

abbrev pub is_in : Instant → List Instant → Bool
is_in f [] = false
is_in f (x ∷ xs) = (f == x) || is_in f xs

-- How many are later than an instant.
abbrev pub above : Instant → List Instant → ℕ
above f [] = 0
above f (x ∷ xs) = let rest = above f xs in if ltb f x then suc rest else rest

pub is_in-insert :
    (f t : Instant) (xs : List Instant) → is_in f (insert t xs) ≡ ((f == t) || is_in f xs)
unfolding insert
is_in-insert f t [] = refl
is_in-insert f t (x ∷ xs) = ground (arith, is_in-insert f t xs)

pub above-insert : (f t : Instant) (xs : List Instant) → above f xs ≤ above f (insert t xs)
unfolding insert
above-insert f t [] = ground arith
above-insert f t (x ∷ xs) = ground (arith, above-insert f t xs)

above-length : (f : Instant) (xs : List Instant) → above f xs ≤ length xs
above-length f [] = omega arith
above-length f (x ∷ xs) = ground (arith, above-length f xs)

pub above-All : (f : Instant) (xs : List Instant) → All (λ x. f < x) xs → above f xs ≡ length xs
above-All f [] h = refl
above-All f (x ∷ xs) (l, h) = ground (arith, above-All f xs h)

length-last_of_full :
    (cap : ℕ) (xs : List Instant) → cap ≤ length xs → length (last_of cap xs) ≡ cap
unfolding last_of
length-last_of_full cap [] h = omega arith
length-last_of_full cap (x ∷ xs) h = ground (arith, length-last_of_full cap xs)

-- What `last_of` has of an instant: the instant itself, or only later ones and as many as it may.
abbrev pub Kept : ℕ → Instant → List Instant → Type 0
Kept cap f out = (is_in f out ≡ true) ⊎ ((length out ≡ cap) × All (λ x. f < x) out)

above_drop : (f x : Instant) (xs : List Instant) → x ≤ f → above f (x ∷ xs) ≡ above f xs
above_drop f x xs h = rw (le→ltb f x h) refl

last_of_drop :
    (cap : ℕ) (x : Instant) (xs : List Instant)
    → cap ≤ length xs
    → last_of cap (x ∷ xs) ≡ last_of cap xs
unfolding last_of
last_of_drop cap x xs h = rw (gt→leb (length (x ∷ xs)) cap (omega arith)) refl

last_of_all : (cap : ℕ) (xs : List Instant) → length xs ≤ cap → last_of cap xs ≡ xs
unfolding last_of
last_of_all cap [] h = refl
last_of_all cap (x ∷ xs) h = rw (le→leb (length (x ∷ xs)) cap h) refl

last_of-later :
    (cap : ℕ) (f : Instant) (xs : List Instant)
    → Ascending xs
    → cap ≤ above f xs
    → All (λ x. f < x) (last_of cap xs)
last_of-later cap f [] h l = subst (All (λ x. f < x)) (sym (last_of_all cap [] (omega arith))) tt
last_of-later cap f (x ∷ xs) (a, h) l = elim (dec_lt f x) [
  | yes u ↦ last_of-All (λ y. f < y) cap (x ∷ xs) (u, All-above f x xs u a)
  | no v ↦
      let m : cap ≤ above f xs = omega (arith, above_drop f x xs (omega arith)) in
      subst (All (λ y. f < y)) (sym (last_of_drop cap x xs (omega (arith, above-length f xs))))
        (last_of-later cap f xs h m)
]

in_tail :
    (f x : Instant) (xs : List Instant) → is_in f (x ∷ xs) ≡ true → (f ≡ x) ⊎ (is_in f xs ≡ true)
in_tail f x xs i = elim (Bool-cases (f == x)) [
  | inl e ↦ inl ((==_iff f x).0 e)
  | inr n ↦ inr (subst (λ b. (b || is_in f xs) ≡ true) n i)
]

last_of_inside :
    (cap : ℕ) (f : Instant) (xs : List Instant)
    → Ascending xs
    → is_in f xs ≡ true
    → Kept cap f (last_of cap xs)
last_of_inside cap f [] h i = cc
last_of_inside cap f (x ∷ xs) (a, h) i = elim (dec_le (length (x ∷ xs)) cap) [
  | yes few ↦ subst (Kept cap f) (sym (last_of_all cap (x ∷ xs) few)) (inl i)
  | no many ↦
      let l : cap ≤ length xs = omega arith in
      subst (Kept cap f) (sym (last_of_drop cap x xs l)) (elim (in_tail f x xs i) [
        | inl e ↦ inr (
          length-last_of_full cap xs l,
          last_of-All (λ y. f < y) cap xs (subst (λ z. All (λ y. z < y) xs) (sym e) a),
        )
        | inr k ↦ last_of_inside cap f xs h k
      ])
]

pub last_of-Kept :
    (cap : ℕ) (f : Instant) (xs : List Instant)
    → Ascending xs
    → (is_in f xs ≡ true) ⊎ (cap ≤ above f xs)
    → Kept cap f (last_of cap xs)
last_of-Kept cap f xs h (inr l) =
    inr (length-last_of_full cap xs (omega (arith, above-length f xs)), last_of-later cap f xs h l)
last_of-Kept cap f xs h (inl i) = last_of_inside cap f xs h i

pub or_true : (b : Bool) → (b || true) ≡ true
or_true true = refl
or_true false = refl
