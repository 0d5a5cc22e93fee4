-- ===== src/Leader/Tests.antt =====
-- leader/postgres.py: a gate that wants one project and gets its lock.
use z4j_scheduler.Prelude.{ℕ, ◌+◌, ◌≤◌, ◌≡◌, refl, true, List, [], ◌∷◌}
use z4j_scheduler.Dict.{get, put}
use z4j_scheduler.Entry.{Uuid}
use z4j_scheduler.Quarantine.{answered}
use z4j_scheduler.Leader.{
  Call, checked, Backend, is_leader, run, cycle, cycle_with, desired_of, acquire_missing,
  on_acquire, release_dropped, on_release, probe,
}
use z4j_scheduler.Leader.Locks.{unreturned, is_clean}
use z4j_scheduler.Leader.Backed.{started, run-backed}

abbrev project_key : Uuid → ℕ
project_key p = p + 100

abbrev backend : Backend
backend = record {
  acquire = λ p k. answered true;
  release = λ p k. answered tt;
  health_check = answered tt;
  close = answered tt;
}

leads : is_leader 7 (run project_key ((answered (7 ∷ []), backend) ∷ []) started) ≡ true
unfolding run cycle cycle_with desired_of acquire_missing on_acquire release_dropped on_release
    probe get put
leads = refl

run-backed_example :
    ((cs : List Call) × ((run project_key ((answered (7 ∷ []), backend) ∷ []) started).calls
        ≡ checked ∷ cs))
    × (is_clean (run project_key ((answered (7 ∷ []), backend) ∷ []) started).calls ≡ true)
    × (1 ≤ unreturned (run project_key ((answered (7 ∷ []), backend) ∷ []) started).calls 107)
run-backed_example = run-backed project_key ((answered (7 ∷ []), backend) ∷ []) 7 leads
