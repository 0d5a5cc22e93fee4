-- ===== src/ShadowComparator/Agreement.antt =====
-- verify/shadow_comparator.py: what a report without divergences says of the two sides.
use z4j_scheduler.Prelude.{
  suc, ◌≡◌, refl, ap, sym, ◌∙◌, subst, Bool, true, false, Option, none, some, List, [], ◌∷◌, ◌++◌,
  Text, text_eq, length, arith, ==_iff, length-append, inl, inr, Bool-cases,
}
use z4j_scheduler.Entry.{Instant}
use z4j_scheduler.ShadowComparator.{
  PredictedFire, FireDivergence, insert_divergence, sort_divergences, has_key, get_fire, by_key,
  same_payload, queue_eq, check_source, source_side, check_target, target_side,
  compare_predicted_fires, is_ok,
}

text_eq-eq : (s t : Text) → text_eq s t ≡ true → s ≡ t
unfolding text_eq
text_eq-eq [] [] h = refl
text_eq-eq [] (d ∷ t) h = cc
text_eq-eq (c ∷ s) [] h = cc
text_eq-eq (c ∷ s) (d ∷ t) h = ground (arith, text_eq-eq s t, ==_iff c d)

queue_eq-eq : (o p : Option Text) → queue_eq o p ≡ true → o ≡ p
queue_eq-eq none none h = refl
queue_eq-eq none (some t) h = cc
queue_eq-eq (some s) none h = cc
queue_eq-eq (some s) (some t) h = ap some (text_eq-eq s t h)

some-injective : {A : Type 0} {a b : A} → some a ≡ some b → a ≡ b
some-injective h = cc

module _ {V : Type 0} where
  length-insert :
      (d : FireDivergence V) (ds : List (FireDivergence V))
      → length (insert_divergence d ds) ≡ suc (length ds)
  unfolding insert_divergence
  length-insert d [] = refl
  length-insert d (e ∷ es) = ground (arith, length-insert d es)

  length-sort : (ds : List (FireDivergence V)) → length (sort_divergences ds) ≡ length ds
  unfolding sort_divergences
  length-sort [] = refl
  length-sort (d ∷ ds) = length-insert d (sort_divergences ds) ∙ ap suc (length-sort ds)

  -- A fire that a key finds has the key.
  get_fire-key :
      (name : Text) (time : Instant) (fs : List (PredictedFire V)) (f : PredictedFire V)
      → get_fire name time fs ≡ some f
      → (f.schedule_name ≡ name) × (f.fire_time ≡ time)
  unfolding get_fire
  get_fire-key name time [] f h = cc
  get_fire-key name time (g ∷ gs) f h =
      ground (
        arith,
        get_fire-key name time gs f,
        text_eq-eq g.schedule_name name,
        ==_iff g.fire_time time,
      )

  found_here :
      (name : Text) (time : Instant) (f : PredictedFire V) (fs : List (PredictedFire V))
      → has_key name time f ≡ true
      → get_fire name time (f ∷ fs) ≡ some f
  unfolding get_fire
  found_here name time f fs h = rw h refl

  found_later :
      (name : Text) (time : Instant) (f : PredictedFire V) (fs : List (PredictedFire V))
      → has_key name time f ≡ false
      → get_fire name time (f ∷ fs) ≡ get_fire name time fs
  unfolding get_fire
  found_later name time f fs h = rw h refl

  none_left :
      (ds es : List (FireDivergence V)) → length (ds ++ es) ≡ 0 → (length ds ≡ 0) × (length es ≡ 0)
  none_left ds es h =
      let split = length-append ds es in (omega (arith, h, split), omega (arith, h, split))

  module _ (value_eq : V → V → Bool) where
    -- Two fires of one task, to one queue, whose arguments compare as equal.
    pub record IsSame (f g : PredictedFire V) : Type 0 where
      pub task : f.task_name ≡ g.task_name
      pub args : value_eq f.args g.args ≡ true
      pub kwargs : value_eq f.kwargs g.kwargs ≡ true
      pub queue : f.queue ≡ g.queue

    same-IsSame : (f g : PredictedFire V) → same_payload value_eq f g ≡ true → IsSame f g
    same-IsSame f g h = record {
      task = text_eq-eq f.task_name g.task_name (ground (arith, h));
      args = ground (arith, h);
      kwargs = ground (arith, h);
      queue = queue_eq-eq f.queue g.queue (ground (arith, h));
    }

    -- A fire of the source that adds no divergence has an equal one in the target.
    Agrees : List (PredictedFire V) → PredictedFire V → Type 0
    Agrees target f =
        (g : PredictedFire V) × (get_fire f.schedule_name f.fire_time target ≡ some g) × IsSame f g

    checked :
        (f : PredictedFire V) (o : Option (PredictedFire V))
        → length (check_source value_eq f o).0 ≡ 0
        → (g : PredictedFire V) × (o ≡ some g) × IsSame f g
    unfolding check_source
    checked f none h = ground arith
    checked f (some g) h = elim (Bool-cases (same_payload value_eq f g)) [
      | inl same ↦ (g, refl, same-IsSame f g same)
      | inr other ↦ ground (arith, other)
    ]

    source-Agrees :
        (target fs : List (PredictedFire V)) (name : Text) (time : Instant) (f : PredictedFire V)
        → length (source_side value_eq target fs).0 ≡ 0
        → get_fire name time fs ≡ some f
        → Agrees target f
    unfolding source_side get_fire Agrees
    source-Agrees target [] name time f h at = cc
    source-Agrees target (x ∷ xs) name time f h at =
        let o = get_fire x.schedule_name x.fire_time target in
        let rest = none_left (check_source value_eq x o).0 (source_side value_eq target xs).0 h in
        elim (Bool-cases (has_key name time x)) [
          | inl here ↦
              subst (Agrees target) (some-injective (sym (found_here name time x xs here) ∙ at))
                (checked x o rest.0)
          | inr later ↦
              source-Agrees target xs name time f rest.1
                (sym (found_later name time x xs later) ∙ at)
        ]

    present :
        (g : PredictedFire V) (o : Option (PredictedFire V))
        → length (check_target value_eq g o) ≡ 0
        → (f : PredictedFire V) × (o ≡ some f)
    unfolding check_target
    present g none h = ground arith
    present g (some f) h = (f, refl)

    target_agrees :
        (source gs : List (PredictedFire V)) (name : Text) (time : Instant) (g : PredictedFire V)
        → length (target_side value_eq source gs) ≡ 0
        → get_fire name time gs ≡ some g
        → (f : PredictedFire V) × (get_fire g.schedule_name g.fire_time source ≡ some f)
    unfolding target_side get_fire
    target_agrees source [] name time g h at = cc
    target_agrees source (x ∷ xs) name time g h at =
        let o = get_fire x.schedule_name x.fire_time source in
        let rest = none_left (check_target value_eq x o) (target_side value_eq source xs) h in
        elim (Bool-cases (has_key name time x)) [
          | inl here ↦
              subst
                (λ (y : PredictedFire V).
                  (f : PredictedFire V) × (get_fire y.schedule_name y.fire_time source ≡ some f))
                (some-injective (sym (found_here name time x xs here) ∙ at)) (present x o rest.0)
          | inr later ↦
              target_agrees source xs name time g rest.1
                (sym (found_later name time x xs later) ∙ at)
        ]

    -- When a comparison reports no divergence, each fire that the source predicts for a name and an
    -- instant has a fire of that name and instant in the target with the same task and queue and
    -- with arguments and keyword arguments that compare as equal, and each such fire of the target
    -- has one in the source; where one side predicts a name and an instant twice, this is said of
    -- the last.
    pub ok-agrees :
        (source target : List (PredictedFire V)) (start end : Instant) (l m name : Text)
        (time : Instant)
        → is_ok (compare_predicted_fires value_eq source target start end l m) ≡ true
        → ((f : PredictedFire V)
            → get_fire name time (by_key [] source) ≡ some f
            → (g : PredictedFire V) × (get_fire name time (by_key [] target) ≡ some g) × IsSame f g)
          × ((g : PredictedFire V)
              → get_fire name time (by_key [] target) ≡ some g
              → (f : PredictedFire V) × (get_fire name time (by_key [] source) ≡ some f))
    unfolding is_ok compare_predicted_fires Agrees
    ok-agrees source target start end l m name time ok =
        let s = by_key [] source in
        let t = by_key [] target in
        let ds = (source_side value_eq t s).0 in
        let es = target_side value_eq s t in
        let total : length (ds ++ es) ≡ 0 =
          sym (length-sort (ds ++ es)) ∙ (==_iff (length (sort_divergences (ds ++ es))) 0).0 ok in
        let rest = none_left ds es total in
        (
          λ f at.
              let key = get_fire-key name time s f at in
              subst (λ n. (g : PredictedFire V) × (get_fire n time t ≡ some g) × IsSame f g) key.0
                (subst
                  (λ i.
                    (g : PredictedFire V) × (get_fire f.schedule_name i t ≡ some g) × IsSame f g)
                  key.1 (source-Agrees t s name time f rest.0 at)),
          λ g at.
              let key = get_fire-key name time t g at in
              subst (λ n. (f : PredictedFire V) × (get_fire n time s ≡ some f)) key.0
                (subst (λ i. (f : PredictedFire V) × (get_fire g.schedule_name i s ≡ some f)) key.1
                  (target_agrees s t name time g rest.1 at)),
        )
