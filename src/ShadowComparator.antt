-- ===== src/ShadowComparator.antt =====
-- verify/shadow_comparator.py: the comparison of the fires that two schedulers predict. The values of
-- `args` and `kwargs` are of any type with a Boolean equality.
pub mod Agreement
pub mod Tests
use z4j_scheduler.Prelude.{
  ℕ, Bool, true, false, not, ◌&&◌, ◌||◌, Option, none, some, List, [], ◌∷◌, ◌++◌, Text, text_eq,
  length, non_empty, ltb, ◌==◌, ◌+◌, if◌then◌else◌,
}
use z4j_scheduler.Entry.{Instant}

pub record PredictedFire (V : Type 0) : Type 0 where
  pub schedule_name : Text
  pub fire_time : Instant
  pub task_name : Text
  pub args : V
  pub kwargs : V
  pub queue : Option Text

pub data DivergenceKind : Type 0 where
  args_diverge only_source only_target : DivergenceKind

pub record FireDivergence (V : Type 0) : Type 0 where
  pub kind : DivergenceKind
  pub schedule_name : Text
  pub fire_time : Instant
  pub source : Option (PredictedFire V)
  pub target : Option (PredictedFire V)

pub record ShadowComparisonReport (V : Type 0) : Type 0 where
  pub window_start : Instant
  pub window_end : Instant
  pub source_label : Text
  pub target_label : Text
  pub source_fire_count : ℕ
  pub target_fire_count : ℕ
  pub matched : ℕ
  pub divergences : List (FireDivergence V)

-- s < t
unfoldable pub text_lt : Text → Text → Bool
text_lt [] [] = false
text_lt [] (d ∷ t) = true
text_lt (c ∷ s) [] = false
text_lt (c ∷ s) (d ∷ t) = let rest = text_lt s t in ltb c d || (c == d && rest)

abbrev pub queue_eq : Option Text → Option Text → Bool
queue_eq none none = true
queue_eq none (some t) = false
queue_eq (some s) none = false
queue_eq (some s) (some t) = text_eq s t

-- The order of the kinds as strings.
abbrev pub kind_rank : DivergenceKind → ℕ
kind_rank args_diverge = 0
kind_rank only_source = 1
kind_rank only_target = 2

module _ {V : Type 0} where
  -- The order `<` of the keys `(fire_time, schedule_name, kind)`.
  abbrev pub divergence_lt : FireDivergence V → FireDivergence V → Bool
  divergence_lt d e =
      ltb d.fire_time e.fire_time
      || (d.fire_time == e.fire_time
          && (text_lt d.schedule_name e.schedule_name
              || (text_eq d.schedule_name e.schedule_name
                  && ltb (kind_rank d.kind) (kind_rank e.kind))))

  -- A stable sort by insertion.
  unfoldable pub insert_divergence :
      FireDivergence V → List (FireDivergence V) → List (FireDivergence V)
  insert_divergence d [] = d ∷ []
  insert_divergence d (e ∷ es) =
      let rest = insert_divergence d es in if divergence_lt e d then e ∷ rest else d ∷ e ∷ es

  unfoldable pub sort_divergences : List (FireDivergence V) → List (FireDivergence V)
  sort_divergences [] = []
  sort_divergences (d ∷ ds) = insert_divergence d (sort_divergences ds)

  abbrev pub has_key : Text → Instant → PredictedFire V → Bool
  has_key name time f = text_eq f.schedule_name name && f.fire_time == time

  -- d.get((name, time))
  unfoldable pub get_fire : Text → Instant → List (PredictedFire V) → Option (PredictedFire V)
  get_fire name time [] = none
  get_fire name time (f ∷ fs) =
      let rest = get_fire name time fs in if has_key name time f then some f else rest

  -- d[f.key] = f, which keeps the place of a key.
  unfoldable pub put_fire : PredictedFire V → List (PredictedFire V) → List (PredictedFire V)
  put_fire f [] = f ∷ []
  put_fire f (g ∷ gs) =
      let rest = put_fire f gs in if has_key f.schedule_name f.fire_time g then f ∷ gs else g ∷ rest

  -- {f.key: f for f in fires}, onto a dict.
  unfoldable pub by_key : List (PredictedFire V) → List (PredictedFire V) → List (PredictedFire V)
  by_key d [] = d
  by_key d (f ∷ fs) = by_key (put_fire f d) fs

  abbrev pub divergence :
      DivergenceKind
      → PredictedFire V
      → Option (PredictedFire V)
      → Option (PredictedFire V)
      → FireDivergence V
  divergence kind f source target = record {
    kind = kind;
    schedule_name = f.schedule_name;
    fire_time = f.fire_time;
    source = source;
    target = target;
  }

  module _ (value_eq : V → V → Bool) where
    -- The payloads of two fires with one key agree.
    abbrev pub same_payload : PredictedFire V → PredictedFire V → Bool
    same_payload f g =
        text_eq f.task_name g.task_name
        && value_eq f.args g.args
        && value_eq f.kwargs g.kwargs
        && queue_eq f.queue g.queue

    -- What the loop over the source adds for one fire.
    unfoldable pub check_source :
        PredictedFire V → Option (PredictedFire V) → List (FireDivergence V) × ℕ
    check_source f none = (divergence only_source f (some f) none ∷ [], 0)
    check_source f (some g) =
        if same_payload f g then ([], 1) else (divergence args_diverge f (some f) (some g) ∷ [], 0)

    -- The loop over the source, with the divergences and the number of matches.
    unfoldable pub source_side :
        List (PredictedFire V) → List (PredictedFire V) → List (FireDivergence V) × ℕ
    source_side target [] = ([], 0)
    source_side target (f ∷ fs) =
        let (ds, m) = check_source f (get_fire f.schedule_name f.fire_time target) in
        let (es, n) = source_side target fs in (ds ++ es, m + n)

    unfoldable pub check_target :
        PredictedFire V → Option (PredictedFire V) → List (FireDivergence V)
    check_target g none = divergence only_target g none (some g) ∷ []
    check_target g (some f) = []

    unfoldable pub target_side :
        List (PredictedFire V) → List (PredictedFire V) → List (FireDivergence V)
    target_side source [] = []
    target_side source (g ∷ gs) =
        check_target g (get_fire g.schedule_name g.fire_time source) ++ target_side source gs

    unfoldable pub compare_predicted_fires :
        List (PredictedFire V)
        → List (PredictedFire V)
        → Instant
        → Instant
        → Text
        → Text
        → ShadowComparisonReport V
    compare_predicted_fires source target start end source_label target_label =
        let source_by_key = by_key [] source in
        let target_by_key = by_key [] target in
        let (divergences, matched) = source_side target_by_key source_by_key in
        record {
          window_start = start;
          window_end = end;
          source_label = source_label;
          target_label = target_label;
          source_fire_count = length source;
          target_fire_count = length target;
          matched = matched;
          divergences = sort_divergences (divergences ++ target_side source_by_key target_by_key);
        }

  unfoldable pub is_ok : ShadowComparisonReport V → Bool
  is_ok report = length report.divergences == 0
