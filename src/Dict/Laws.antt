-- ===== src/Dict/Laws.antt =====
-- What a read returns after a write.
use z4j_scheduler.Prelude.{
  ℕ, ◌≡◌, refl, true, false, none, some, [], ◌∷◌, arith, ◌==◌, ==_refl, if◌then◌else◌,
}
use z4j_scheduler.Dict.{Dict, get, put, pop, Set, contains, add, discard}

module _ {ℓ} {V : Type ℓ} where
  pub get-put :
      (d : Dict V) (k j : ℕ) (v : V) → get (put d k v) j ≡ (if k == j then some v else get d j)
  unfolding get put
  get-put [] k j v = refl
  get-put ((i, w) ∷ d) k j v = ground (arith, get-put d k j v)

  pub get-put_same : (d : Dict V) (k : ℕ) (v : V) → get (put d k v) k ≡ some v
  get-put_same d k v = rw (get-put d k k v, ==_refl k) refl

  pub get-pop : (d : Dict V) (k j : ℕ) → get (pop d k) j ≡ (if k == j then none else get d j)
  unfolding get pop
  get-pop [] k j = ground arith
  get-pop ((i, w) ∷ d) k j = ground (arith, get-pop d k j)

  -- Writing back what a key holds changes nothing.
  pub put-get : (d : Dict V) (k : ℕ) (v : V) → get d k ≡ some v → put d k v ≡ d
  unfolding get put
  put-get [] k v h = ground arith
  put-get ((i, w) ∷ d) k v h = ground (arith, put-get d k v)

  -- The last of two writes to a key wins.
  pub put-put : (d : Dict V) (k : ℕ) (v w : V) → put (put d k v) k w ≡ put d k w
  unfolding put
  put-put [] k v w = ground arith
  put-put ((i, u) ∷ d) k v w = ground (arith, put-put d k v w)

  -- To drop an absent key changes nothing.
  pub pop_absent : (d : Dict V) (k : ℕ) → get d k ≡ none → pop d k ≡ d
  unfolding get pop
  pop_absent [] k h = refl
  pop_absent ((i, w) ∷ d) k h = ground (arith, pop_absent d k)

pub ruleset dict_laws = (get-put, get-pop)

pub contains-add :
    (s : Set) (k j : ℕ) → contains (add s k) j ≡ (if k == j then true else contains s j)
unfolding contains add
contains-add s k j = grind (arith, contains-of-eq)
  where
    contains-of-eq : contains s k ≡ true → (k == j) ≡ true → contains s j ≡ true
    contains-of-eq h e = ground arith

pub contains-discard :
    (s : Set) (k j : ℕ) → contains (discard s k) j ≡ (if k == j then false else contains s j)
unfolding contains discard
contains-discard [] k j = ground arith
contains-discard (i ∷ s) k j = ground (arith, contains-discard s k j)
