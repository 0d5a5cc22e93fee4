-- ===== src/ShadowComparator/Tests.antt =====
-- verify/shadow_comparator.py: the same two fires in another order.
use z4j_scheduler.Prelude.{ℕ, ◌≡◌, ◌==◌, refl, true, none, some, List, [], ◌∷◌, codes, text_eq}
use z4j_scheduler.Entry.{Instant}
use z4j_scheduler.ShadowComparator.{
  PredictedFire, is_ok, compare_predicted_fires, source_side, check_source, target_side,
  check_target, sort_divergences, insert_divergence, get_fire, put_fire, by_key,
}
use z4j_scheduler.ShadowComparator.Agreement.{ok-agrees, IsSame}

abbrev fire : Instant → ℕ → PredictedFire ℕ
fire time value = record {
  schedule_name = codes "report";
  fire_time = time;
  task_name = codes "send";
  args = value;
  kwargs = 0;
  queue = none;
}

abbrev beat : List (PredictedFire ℕ)
beat = fire 60 1 ∷ fire 120 1 ∷ []

abbrev imported : List (PredictedFire ℕ)
imported = fire 120 1 ∷ fire 60 1 ∷ []

agreed :
    is_ok (compare_predicted_fires ◌==◌ beat imported 0 120 (codes "beat") (codes "z4j")) ≡ true
unfolding is_ok compare_predicted_fires source_side check_source target_side check_target
    sort_divergences insert_divergence get_fire put_fire by_key text_eq
agreed = refl

ok-agrees_example :
    ((f : PredictedFire ℕ)
      → get_fire (codes "report") 60 (by_key [] beat) ≡ some f
      → (g : PredictedFire ℕ) × (get_fire (codes "report") 60 (by_key [] imported) ≡ some g)
        × IsSame ◌==◌ f g)
    × ((g : PredictedFire ℕ)
        → get_fire (codes "report") 60 (by_key [] imported) ≡ some g
        → (f : PredictedFire ℕ) × (get_fire (codes "report") 60 (by_key [] beat) ≡ some f))
ok-agrees_example =
    ok-agrees ◌==◌ beat imported 0 120 (codes "beat") (codes "z4j") (codes "report") 60 agreed
