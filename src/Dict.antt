-- ===== src/Dict.antt =====
-- Python's `dict` with integer keys, in insertion order: a write to a present key keeps its place,
-- a write to a new key goes to the end.
pub mod Laws
pub mod Distinct
use z4j_scheduler.Prelude.{
  ℕ, Bool, true, false, Option, none, some, List, [], ◌∷◌, ◌==◌, if◌then◌else◌,
}

abbrev pub Dict {ℓ} : Type ℓ → Type ℓ
Dict V = List (ℕ × V)

module _ {ℓ} {V : Type ℓ} where
  -- d.get(k)
  unfoldable pub get : Dict V → ℕ → Option V
  get [] k = none
  get ((j, v) ∷ d) k = if j == k then some v else get d k

  -- d[k] = v
  unfoldable pub put : Dict V → ℕ → V → Dict V
  put [] k v = (k, v) ∷ []
  put ((j, w) ∷ d) k v = if j == k then (k, v) ∷ d else (j, w) ∷ put d k v

  -- d.pop(k, None), del d[k]
  unfoldable pub pop : Dict V → ℕ → Dict V
  pop [] k = []
  pop ((j, w) ∷ d) k = if j == k then pop d k else (j, w) ∷ pop d k

  -- d.get(k, default)
  unfoldable pub get_or : Dict V → ℕ → V → V
  unfolding get
  get_or d k v = elim (get d k) [ none ↦ v | some w ↦ w ]

  -- d.values()
  unfoldable pub values : Dict V → List V
  values [] = []
  values ((j, v) ∷ d) = v ∷ values d

-- A `set` of integers.
abbrev pub Set : Type 0
Set = List ℕ

-- k in s
unfoldable pub contains : Set → ℕ → Bool
contains [] k = false
contains (j ∷ s) k = if j == k then true else contains s k

-- s.add(k)
unfoldable pub add : Set → ℕ → Set
unfolding contains
add s k = if contains s k then s else k ∷ s

-- s.discard(k)
unfoldable pub discard : Set → ℕ → Set
discard [] k = []
discard (j ∷ s) k = if j == k then discard s k else j ∷ discard s k
