-- ===== src/Tick/Cron/Walks.antt =====
-- tick/cron.py: what the two walks of `fires_between` find, where each iterator of croniter may miss fires
-- that the other gives.
use z4j_scheduler.Prelude.{
  ℕ, zero, suc, ◌+◌, ◌≤◌, ◌<◌, ◌≡◌, ◌⊎◌, inl, inr, refl, ap, ◌∙◌, ◌-◌, sym, subst, true, Option,
  none, some, List, [], ◌∷◌, length, All, All-map, arith, gt→leb, le→leb, lt→ltb, le→ltb, ◌==◌,
  ==_refl, ==_iff,
}
use native.Mathlib.Decide.{dec_le, dec_lt, ℕ_discrete}
use z4j_scheduler.Entry.{Instant}
use z4j_scheduler.Tick.Cron.{
  Computed, computed, expression_error, broke, insert, turn_back, turn_forward, walk_back,
  walk_forward, forward_start, max_dst_shift,
}
use z4j_scheduler.Tick.Cron.Window.{Ascending, insert-All, insert-Ascending, Answers, Goes}
use z4j_scheduler.Tick.Cron.Kept.{is_in, above, is_in-insert, above-insert, above-All, or_true}

-- What the walks need of the fires `F` of an expression: the answers backwards are fires before the base and
-- go down to the start of the window; the answers forwards are fires and go up.
pub record Descends (F : Instant → Type 0) (after base : Instant) (prev : ℕ → Option Instant)
    : Type 0 where
  pub answers : Answers prev
  pub fires : (n : ℕ) → after < answers.at n → F (answers.at n)
  pub under : (n : ℕ) → answers.at n < base
  pub down : (n : ℕ) → answers.at (suc n) ≤ answers.at n
  pub strict : (n : ℕ) → after < answers.at n → answers.at (suc n) < answers.at n

pub record Ascends (F : Instant → Type 0) (next : ℕ → Option Instant) : Type 0 where
  pub goes : Goes next
  pub fires : (n : ℕ) → F (goes.answers.at n)

-- By how much the clocks of the zone were put back in the three hours before an instant.
abbrev pub put_back : (Instant → ℕ) → Instant → ℕ
put_back utcoffset t = utcoffset (t - max_dst_shift) - utcoffset t

-- A fire that the iterator backwards misses: the iterators forwards give it from every earlier base, and the
-- next later answer backwards is less than a second further on than the clocks were put back there.
pub record IsRepeated (utcoffset : Instant → ℕ) (at : ℕ → Instant) (ahead : Instant → ℕ → Instant)
    (f : Instant) : Type 0 where
  pub given : (base : Instant) → base < f → (m : ℕ) × (ahead base m ≡ f)
  pub close : (n : ℕ) → f < at n → at (suc n) < f → at n < f + (put_back utcoffset (at n) + 1000000)

module _ (F : Instant → Type 0) (after until : Instant) (cap : ℕ) where
  -- What the walks have found: fires, in order, and each fire of the window unless there are as many later,
  -- or it is to be found yet.
  pub record Covers (Rest : Instant → Type 0) (xs : List Instant) : Type 0 where
    pub fires : All F xs
    pub ascending : Ascending xs
    pub each :
        (f : Instant)
        → F f
        → after < f
        → f ≤ until
        → ((is_in f xs ≡ true) ⊎ (cap ≤ above f xs)) ⊎ Rest f

  insert-Covers :
      {Rest Rest' : Instant → Type 0} (t : Instant) (xs : List Instant)
      → F t
      → ((f : Instant) → after < f → Rest f → (f ≡ t) ⊎ Rest' f)
      → Covers Rest xs
      → Covers Rest' (insert t xs)
  insert-Covers t xs h next c = record {
    fires = insert-All F t xs h c.fires;
    ascending = insert-Ascending t xs c.ascending;
    each = λ f k l u. elim (c.each f k l u) [
      | inl seen ↦ inl (elim seen [
        | inl i ↦ inl (rw (is_in-insert f t xs, i) (or_true (f == t)))
        | inr m ↦ inr (omega (arith, above-insert f t xs))
      ])
      | inr r ↦ elim (next f l r) [ inl e ↦ inl (inl (is_in_here f t xs e)) | inr r' ↦ inr r' ]
    ];
  }
    where
      is_in_here : (f t : Instant) (xs : List Instant) → f ≡ t → is_in f (insert t xs) ≡ true
      is_in_here f t xs e =
          let same : (f == t) ≡ true = (==_iff f t).1 e in rw (is_in-insert f t xs, same) refl

  pub pass-Covers :
      {Rest Rest' : Instant → Type 0} (xs : List Instant)
      → ((f : Instant) → after < f → f ≤ until → Rest f → Rest' f)
      → Covers Rest xs
      → Covers Rest' xs
  pass-Covers xs next c = record {
    fires = c.fires;
    ascending = c.ascending;
    each = λ f k l u. elim (c.each f k l u) [ inl seen ↦ inl seen | inr r ↦ inr (next f l u r) ];
  }

  abbrev pub CoversForward : Computed (List Instant) → Type 0
  CoversForward (computed out) = Covers (λ f. ⊥) out
  CoversForward expression_error = Unit
  CoversForward broke = Unit

  module _ (next : ℕ → Option Instant) (a : Ascends F next) where
    -- It is the answer `n` or one after it.
    abbrev pub Later : ℕ → Instant → Type 0
    Later n f = (m : ℕ) × (n ≤ m) × (a.goes.answers.at m ≡ f)

    monotone : (n m : ℕ) → n ≤ m → a.goes.answers.at n ≤ a.goes.answers.at m
    monotone n zero h = let e : n ≡ 0 = omega arith in rw e (omega arith)
    monotone n (suc m) h = elim (ℕ_discrete n (suc m)) [
      | yes e ↦ rw e (omega arith)
      | no l ↦ omega (arith, a.goes.up m, monotone n m (omega arith))
    ]

    split-Later : (n : ℕ) (f : Instant) → Later n f → (f ≡ a.goes.answers.at n) ⊎ Later (n + 1) f
    split-Later n f (m, l, e) = elim (ℕ_discrete n m) [
      | yes same ↦ inl (sym e ∙ ap a.goes.answers.at (sym same))
      | no more ↦ inr (m, omega arith, e)
    ]

    none_past : (n : ℕ) (f : Instant) → until < a.goes.answers.at n → f ≤ until → Later n f → ⊥
    none_past n f past u (m, l, e) = omega (arith, monotone n m l)

    pub walk_forward-Covers :
        (fuel n : ℕ) (found : List Instant)
        → Covers (Later n) found
        → CoversForward (walk_forward fuel next after until n found)
    unfolding walk_forward
    walk_forward-Covers zero n found c = tt
    walk_forward-Covers (suc fuel) n found c =
        let t = a.goes.answers.at n in
        let rest = (λ (f : List Instant). walk_forward fuel next after until (n + 1) f) in
        subst (λ o. CoversForward (turn_forward after until found o rest))
          (sym (a.goes.answers.answer n))
          (elim (dec_lt until t) [
            | yes past ↦
                rw (lt→ltb until t past) (pass-Covers found (λ f l u r. none_past n f past u r) c)
            | no inside ↦ elim (dec_lt after t) [
              | yes up ↦
                  rw (le→ltb until t (omega arith), lt→ltb after t up)
                    (walk_forward-Covers fuel (n + 1) (insert t found)
                      (insert-Covers t found (a.fires n) (λ f l r. split-Later n f r) c))
              | no low ↦
                  rw (le→ltb until t (omega arith), le→ltb after t (omega arith))
                    (walk_forward-Covers fuel (n + 1) found (
                      pass-Covers found
                        (λ f l u r. elim (split-Later n f r) [
                          | inl e ↦ absurd (omega arith)
                          | inr r' ↦ r'
                        ])
                        c))
            ]
          ])

  module _ (utcoffset : Instant → ℕ) (ahead : Instant → ℕ → Instant) (prev : ℕ → Option Instant)
      (d : Descends F after (until + 1) prev)
      (sees : (f : Instant)
        → F f
        → after < f
        → f ≤ until
        → ((n : ℕ) × (d.answers.at n ≡ f)) ⊎ IsRepeated utcoffset d.answers.at ahead f) where
    abbrev pub Ahead : Instant → Instant → Type 0
    Ahead lower f = (m : ℕ) × (ahead (forward_start utcoffset after lower) m ≡ f)

    abbrev pub CoversBack : Option (Instant × List Instant) → Type 0
    CoversBack none = Unit
    CoversBack (some (lower, found)) = Covers (Ahead lower) found

    antitone : (n m : ℕ) → n ≤ m → d.answers.at m ≤ d.answers.at n
    antitone n zero h = let e : n ≡ 0 = omega arith in rw e (omega arith)
    antitone n (suc m) h = elim (ℕ_discrete n (suc m)) [
      | yes e ↦ rw e (omega arith)
      | no l ↦ omega (arith, d.down m, antitone n m (omega arith))
    ]

    -- The walk back before its answer `n`.
    pub record Walked (n : ℕ) (lower : Instant) (found : List Instant) : Type 0 where
      pub fires : All F found
      pub ascending : Ascending found
      pub later : All (λ x. d.answers.at n < x) found
      pub size : length found ≡ n
      pub got : (m : ℕ) → m < n → is_in (d.answers.at m) found ≡ true
      pub from : All (λ x. lower ≤ x) found
      pub last : (lower ≡ after) ⊎ ((m : ℕ) × (suc m ≡ n) × (lower ≡ d.answers.at m))

    start-lt :
        (lower f : Instant)
        → after < f
        → lower < f + (put_back utcoffset lower + 1000000)
        → forward_start utcoffset after lower < f
    unfolding forward_start
    start-lt lower f l h = ground (arith, l, h)

    -- A fire of the window was found, or is the answer `n` or one after it, or is found forwards.
    Walked-Covers :
        (n : ℕ) (lower : Instant) (found : List Instant)
        → Walked n lower found
        → (d.answers.at n ≤ after) ⊎ (cap ≤ n)
        → Covers (Ahead lower) found
    Walked-Covers n lower found w stop = record {
      fires = w.fires;
      ascending = w.ascending;
      each = λ f k l u. elim (sees f k l u) [
        | inl (m, e) ↦ inl (each_at f l m e (dec_lt m n) stop)
        | inr r ↦ missed f l r (dec_le lower f) w.last stop
      ];
    }
      where
        few : (f : Instant) → f < lower → cap ≤ n → cap ≤ above f found
        few f low c = omega (
          arith,
          w.size,
          above-All f found
              (All-map (λ x. lower ≤ x) (λ x. f < x) (λ x h. omega arith) found w.from),
        )

        each_at :
            (f : Instant)
            → after < f
            → (m : ℕ) → d.answers.at m ≡ f
            → Dec (m < n)
            → (d.answers.at n ≤ after) ⊎ (cap ≤ n)
            → (is_in f found ≡ true) ⊎ (cap ≤ above f found)
        each_at f l m e (yes h) stop = inl (subst (λ g. is_in g found ≡ true) e (w.got m h))
        each_at f l m e (no h) (inl s) = absurd (omega (arith, antitone n m (omega arith)))
        each_at f l m e (no h) (inr c) =
            let low : f ≤ d.answers.at n = omega (arith, antitone n m (omega arith)) in
            inr (
              omega (
                arith,
                w.size,
                above-All f found (
                    All-map (λ x. d.answers.at n < x) (λ x. f < x) (λ x h. omega arith) found
                      w.later),
              ))

        missed :
            (f : Instant)
            → after < f
            → IsRepeated utcoffset d.answers.at ahead f
            → Dec (lower ≤ f)
            → (lower ≡ after) ⊎ ((m : ℕ) × (suc m ≡ n) × (lower ≡ d.answers.at m))
            → (d.answers.at n ≤ after) ⊎ (cap ≤ n)
            → ((is_in f found ≡ true) ⊎ (cap ≤ above f found)) ⊎ Ahead lower f
        missed f l r (yes h) last stop = inr (r.given _ (start-lt lower f l (omega arith)))
        missed f l r (no h) last (inr c) = inl (inr (few f (omega arith) c))
        missed f l r (no h) (inl e) (inl s) = absurd (omega arith)
        missed f l r (no h) (inr (m, e, at)) (inl s) =
            let below : d.answers.at (suc m) < f =
              subst (λ i. d.answers.at i < f) (sym e) (omega arith) in
            let close = r.close m (omega arith) below in
            inr (
              r.given _ (
                start-lt lower f l
                  (subst (λ b. b < f + (put_back utcoffset b + 1000000)) (sym at) close)))

    insert_first : (t : Instant) (xs : List Instant) → All (λ x. t < x) xs → insert t xs ≡ t ∷ xs
    unfolding insert
    insert_first t [] h = refl
    insert_first t (x ∷ xs) (l, h) = rw (lt→ltb t x l) refl

    Walked-insert :
        (n : ℕ) (lower : Instant) (found : List Instant)
        → after < d.answers.at n
        → Walked n lower found
        → Walked (n + 1) (d.answers.at n) (insert (d.answers.at n) found)
    Walked-insert n lower found l w =
        let t = d.answers.at n in
        let e : suc n ≡ n + 1 = omega arith in
        let q : d.answers.at (n + 1) < t = subst (λ m. d.answers.at m < t) e (d.strict n l) in
        rw (insert_first t found w.later) (record {
          fires = (d.fires n l, w.fires);
          ascending = (w.later, w.ascending);
          later = (
            q,
            All-map (λ x. t < x) (λ x. d.answers.at (n + 1) < x) (λ x h. omega arith) found w.later,
          );
          size = omega (arith, w.size);
          got = got_first;
          from =
              (omega arith, All-map (λ x. t < x) (λ x. t ≤ x) (λ x h. omega arith) found w.later);
          last = inr (n, e, refl);
        })
      where
        got_first : (m : ℕ) → m < n + 1 → is_in (d.answers.at m) (d.answers.at n ∷ found) ≡ true
        got_first m h = elim (ℕ_discrete m n) [
          | yes e ↦
              subst (λ j. is_in (d.answers.at j) (d.answers.at n ∷ found) ≡ true) (sym e)
                (rw (==_refl (d.answers.at n)) refl)
          | no o ↦ rw (w.got m (omega arith)) (or_true (d.answers.at m == d.answers.at n))
        ]

    pub walk_back-CoversBack :
        (bound n : ℕ) (lower : Instant) (found : List Instant)
        → n + bound ≡ cap
        → Walked n lower found
        → CoversBack (walk_back prev after until bound n (lower, found))
    unfolding walk_back
    walk_back-CoversBack zero n lower found e w = Walked-Covers n lower found w (inr (omega arith))
    walk_back-CoversBack (suc bound) n lower found e w =
        let t = d.answers.at n in
        subst
          (λ o. CoversBack (
            turn_back after until (lower, found) o
              (λ s. walk_back prev after until bound (n + 1) s)))
          (sym (d.answers.answer n))
          (elim (dec_le t after) [
            | yes low ↦ rw (le→leb t after low) (Walked-Covers n lower found w (inl low))
            | no up ↦
                rw (gt→leb t after (omega arith), le→leb t until (omega (arith, d.under n)))
                  (walk_back-CoversBack bound (n + 1) t (insert t found) (omega arith)
                    (Walked-insert n lower found (omega arith) w))
          ])
