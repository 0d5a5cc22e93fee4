-- ===== src/Leader/Locks.antt =====
-- leader/postgres.py: what the calls of a gate say of the advisory locks of its connection, and the keys
-- that a gate holds projects under.
use z4j_scheduler.Prelude.{
  ℕ, ◌+◌, ◌-◌, ◌≤◌, ◌≡◌, refl, Bool, true, false, none, some, List, [], ◌∷◌, ◌==◌, if◌then◌else◌,
  arith,
}
use z4j_scheduler.Dict.{Dict, get, put, pop}
use z4j_scheduler.Leader.{
  Call, granted, refused, acquire_failed, released, release_failed, checked, check_failed, closed,
  close_failed,
}

-- How many grants of a key the gate has got on its connection and not given back. The connection ends
-- with a close, also with one that failed. A call that failed may have had its effect.
unfoldable pub unreturned : List Call → ℕ → ℕ
unreturned [] k = 0
unreturned (granted j ∷ cs) k = let rest = unreturned cs k in if j == k then rest + 1 else rest
unreturned (released j ∷ cs) k = let rest = unreturned cs k in if j == k then rest - 1 else rest
unreturned (release_failed j ∷ cs) k =
    let rest = unreturned cs k in if j == k then rest - 1 else rest
unreturned (refused j ∷ cs) k = unreturned cs k
unreturned (acquire_failed j ∷ cs) k = unreturned cs k
unreturned (checked ∷ cs) k = unreturned cs k
unreturned (check_failed ∷ cs) k = unreturned cs k
unreturned (closed ∷ cs) k = 0
unreturned (close_failed ∷ cs) k = 0

-- No call on the connection has failed.
unfoldable pub is_clean : List Call → Bool
is_clean [] = true
is_clean (granted j ∷ cs) = is_clean cs
is_clean (released j ∷ cs) = is_clean cs
is_clean (release_failed j ∷ cs) = false
is_clean (refused j ∷ cs) = is_clean cs
is_clean (acquire_failed j ∷ cs) = false
is_clean (checked ∷ cs) = is_clean cs
is_clean (check_failed ∷ cs) = false
is_clean (closed ∷ cs) = true
is_clean (close_failed ∷ cs) = true

-- How many projects are held under a key.
unfoldable pub held_under : Dict ℕ → ℕ → ℕ
held_under [] k = 0
held_under ((p, j) ∷ d) k = let rest = held_under d k in if j == k then rest + 1 else rest

pub held_under-put :
    (d : Dict ℕ) (p j k : ℕ)
    → get d p ≡ none
    → held_under (put d p j) k ≡ (if j == k then held_under d k + 1 else held_under d k)
unfolding held_under get put
held_under-put [] p j k h = refl
held_under-put ((q, i) ∷ d) p j k h = ground (arith, held_under-put d p j k)

pub held_under-pop_le : (d : Dict ℕ) (p k : ℕ) → held_under (pop d p) k ≤ held_under d k
unfolding held_under pop
held_under-pop_le [] p k = omega arith
held_under-pop_le ((q, i) ∷ d) p k = ground (arith, held_under-pop_le d p k)

pub held_under-pop :
    (d : Dict ℕ) (p j k : ℕ)
    → get d p ≡ some j
    → (if j == k then held_under (pop d p) k + 1 else held_under (pop d p) k) ≤ held_under d k
unfolding held_under get pop
held_under-pop [] p j k h = cc
held_under-pop ((q, i) ∷ d) p j k h =
    ground (arith, held_under-pop d p j k, held_under-pop_le d p k)

pub held_under-pos : (d : Dict ℕ) (p j : ℕ) → get d p ≡ some j → 1 ≤ held_under d j
unfolding held_under get
held_under-pos [] p j h = cc
held_under-pos ((q, i) ∷ d) p j h = ground (arith, held_under-pos d p j)
