-- ===== src/Dict/Distinct.antt =====
-- Dictionaries that hold each key once, as every `dict` does, and a count over their values.
use z4j_scheduler.Prelude.{
  ℕ, ◌+◌, ◌≡◌, refl, Bool, Option, none, some, [], ◌∷◌, arith, if◌then◌else◌,
}
use z4j_scheduler.Dict.{Dict, get, put, pop}
use z4j_scheduler.Dict.Laws.{get-put, get-pop, pop_absent}

module _ {ℓ} {V : Type ℓ} where
  abbrev pub Distinct : Dict V → Type ℓ
  Distinct [] = Unit
  Distinct ((k, v) ∷ d) = (get d k ≡ none) × Distinct d

  pub put-Distinct : (d : Dict V) (k : ℕ) (v : V) → Distinct d → Distinct (put d k v)
  unfolding put get
  put-Distinct [] k v h = (refl, tt)
  put-Distinct ((j, w) ∷ d) k v h = ground (arith, get-put d k j v, put-Distinct d k v)

  pub pop-Distinct : (d : Dict V) (k : ℕ) → Distinct d → Distinct (pop d k)
  unfolding pop get
  pop-Distinct [] k h = tt
  pop-Distinct ((j, w) ∷ d) k h = ground (arith, get-pop d k j, pop-Distinct d k)

  module _ (p : V → Bool) where
    -- How many entries satisfy `p`.
    unfoldable pub tally : Dict V → ℕ
    tally [] = 0
    tally ((j, v) ∷ d) = (if p v then 1 else 0) + tally d

    abbrev pub weight : Option V → ℕ
    weight none = 0
    weight (some v) = if p v then 1 else 0

    pub tally-put :
        (d : Dict V) (k : ℕ) (v : V)
        → tally (put d k v) + weight (get d k) ≡ tally d + weight (some v)
    unfolding tally put get
    tally-put [] k v = ground arith
    tally-put ((j, w) ∷ d) k v = ground (arith, tally-put d k v)

    pub tally-pop : (d : Dict V) (k : ℕ) → Distinct d → tally (pop d k) + weight (get d k) ≡ tally d
    unfolding tally pop get
    tally-pop [] k h = ground arith
    tally-pop ((j, w) ∷ d) k h = ground (arith, tally-pop d k, pop_absent d k)
