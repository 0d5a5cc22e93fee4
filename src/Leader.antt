-- ===== src/Leader.antt =====
-- leader/postgres.py: the two leader gates, and the calls that they make of their lock backend. The
-- backend's answers are parameters of a cycle. A deadline that passes is a failed call.
pub mod Locks
pub mod Backed
pub mod Asyncpg
pub mod Tests
use z4j_scheduler.Prelude.{
  ℕ, zero, suc, ◌+◌, ◌-◌, Bool, true, false, not, Option, none, some, is_some, is_none, List, [],
  ◌∷◌, ◌==◌, if◌then◌else◌,
}
use z4j_scheduler.Dict.{Dict, get, put, pop, values}
use z4j_scheduler.Entry.{Uuid}
use z4j_scheduler.Quarantine.{Answer, answered, failed}

-- A call of the backend with how it ended.
pub data Call : Type 0 where
  granted refused acquire_failed : ℕ → Call
  released release_failed : ℕ → Call
  checked check_failed closed close_failed : Call

-- What the backend answers in one cycle, by project and key where a call has one.
pub record Backend : Type 0 where
  pub acquire : Uuid → ℕ → Answer Bool
  pub release : Uuid → ℕ → Answer (Unit {0})
  pub health_check : Answer (Unit {0})
  pub close : Answer (Unit {0})

-- How a part of a cycle ends.
pub data Ending : Type 0 where
  went_on raised : Ending

-- `PerProjectLeaderGate`: the projects that it holds with their keys, and its calls, the latest first.
pub record Gate : Type 0 where
  pub held : Dict ℕ
  pub calls : List Call

abbrev pub call : Call → Gate → Gate
call c g = record g { calls = c ∷ g.calls }

-- `is_leader(project_id)`
abbrev pub is_leader : Uuid → Gate → Bool
is_leader p g = is_some (get g.held p)

abbrev pub close_call : Answer (Unit {0}) → Call
close_call failed = close_failed
close_call (answered u) = closed

-- The handler of a failed cycle: no project is led, and the connection is closed.
unfoldable pub drop_all : Backend → Gate → Gate
drop_all b g = record { held = []; calls = close_call b.close ∷ g.calls }

unfoldable pub on_acquire : Uuid → ℕ → Answer Bool → Gate → Gate × Ending
on_acquire p k failed g = (call (acquire_failed k) g, raised)
on_acquire p k (answered true) g =
    (record { held = put g.held p k; calls = granted k ∷ g.calls }, went_on)
on_acquire p k (answered false) g = (call (refused k) g, went_on)

abbrev pub then_on : Gate × Ending → (Gate → Gate × Ending) → Gate × Ending
then_on (g, raised) rest = (g, raised)
then_on (g, went_on) rest = rest g

-- A project that is already held is passed over.
abbrev pub acquire_one : Backend → Uuid → ℕ → Option ℕ → Gate → Gate × Ending
acquire_one b p k (some j) g = (g, went_on)
acquire_one b p k none g = on_acquire p k (b.acquire p k) g

-- Acquire missing.
unfoldable pub acquire_missing : Backend → Dict ℕ → Gate → Gate × Ending
acquire_missing b [] g = (g, went_on)
acquire_missing b ((p, k) ∷ desired) g =
    then_on (acquire_one b p k (get g.held p) g) (λ g. acquire_missing b desired g)

unfoldable pub on_release : Uuid → ℕ → Answer (Unit {0}) → Gate → Gate × Ending
on_release p k failed g = (call (release_failed k) g, raised)
on_release p k (answered u) g =
    (record { held = pop g.held p; calls = released k ∷ g.calls }, went_on)

-- A project is released when it is held and no longer desired.
abbrev pub release_one : Backend → Uuid → Option ℕ → Option ℕ → Gate → Gate × Ending
release_one b p (some j) held g = (g, went_on)
release_one b p none none g = (g, went_on)
release_one b p none (some k) g = on_release p k (b.release p k) g

-- Release dropped: over a copy of the held projects.
unfoldable pub release_dropped : Backend → Dict ℕ → Dict ℕ → Gate → Gate × Ending
release_dropped b desired [] g = (g, went_on)
release_dropped b desired ((p, k) ∷ copy) g =
    then_on (release_one b p (get desired p) (get g.held p) g)
      (λ g. release_dropped b desired copy g)

unfoldable pub probe : Backend → Gate → Gate × Ending
probe b g = elim b.health_check [
  | failed ↦ (call check_failed g, raised)
  | answered u ↦ (call checked g, went_on)
]

abbrev pub recover : Backend → Gate × Ending → Gate
recover b (g, went_on) = g
recover b (g, raised) = drop_all b g

module _ (project_key : Uuid → ℕ) where
  -- {pid: _project_key(namespace, pid) for pid in projects}
  unfoldable pub desired_of : List Uuid → Dict ℕ → Dict ℕ
  desired_of [] d = d
  desired_of (p ∷ ps) d = desired_of ps (put d p (project_key p))

  -- One turn of `_run`. The source of projects may raise.
  unfoldable pub cycle_with : Backend → Dict ℕ → Gate → Gate
  cycle_with b desired g = recover b (
      then_on (acquire_missing b desired g)
        (λ g. then_on (release_dropped b desired g.held g) (λ g. probe b g)))

  unfoldable pub cycle : Answer (List Uuid) → Backend → Gate → Gate
  cycle failed b g = drop_all b g
  cycle (answered projects) b g = cycle_with b (desired_of projects []) g

  -- The loop over the cycles that it ran.
  unfoldable pub run : List (Answer (List Uuid) × Backend) → Gate → Gate
  run [] g = g
  run ((source, b) ∷ cycles) g = run cycles (cycle source b g)

abbrev release_call : ℕ → Answer (Unit {0}) → Call
release_call k failed = release_failed k
release_call k (answered u) = released k

-- `_release_all_and_close`: each held key gets its release, whether or not an earlier one failed.
unfoldable pub release_all : Backend → Dict ℕ → Gate → Gate
release_all b [] g = g
release_all b ((p, k) ∷ held) g = release_all b held (call (release_call k (b.release p k)) g)

unfoldable pub release_all_and_close : Backend → Gate → Gate
release_all_and_close b g = drop_all b (release_all b g.held g)

-- `PostgresAdvisoryLockLeaderGate`, for its one key.
pub record GlobalGate : Type 0 where
  pub leads : Bool
  pub calls : List Call

module _ (key : ℕ) where
  abbrev on_probe : Answer (Unit {0}) → Answer (Unit {0}) → GlobalGate → GlobalGate
  on_probe (answered u) close g = record g { calls = checked ∷ g.calls }
  on_probe failed close g = record {
    leads = false;
    calls = close_call close ∷ check_failed ∷ g.calls;
  }

  abbrev on_try : Answer Bool → Answer (Unit {0}) → GlobalGate → GlobalGate
  on_try (answered true) close g = record { leads = true; calls = granted key ∷ g.calls }
  on_try (answered false) close g = record g { calls = refused key ∷ g.calls }
  on_try failed close g = record {
    leads = false;
    calls = close_call close ∷ acquire_failed key ∷ g.calls;
  }

  abbrev pub global_turn :
      Bool → Answer Bool → Answer (Unit {0}) → Answer (Unit {0}) → GlobalGate → GlobalGate
  global_turn true acquire health_check close g = on_probe health_check close g
  global_turn false acquire health_check close g = on_try acquire close g

  -- One turn of `_run`: a standby tries the lock, a leader probes its connection.
  unfoldable pub global_cycle :
      Answer Bool → Answer (Unit {0}) → Answer (Unit {0}) → GlobalGate → GlobalGate
  global_cycle acquire health_check close g = global_turn g.leads acquire health_check close g

  abbrev release_if : Bool → Answer (Unit {0}) → List Call → List Call
  release_if true release calls = release_call key release ∷ calls
  release_if false release calls = calls

  -- `_release_and_close`
  unfoldable pub release_and_close : Answer (Unit {0}) → Answer (Unit {0}) → GlobalGate → GlobalGate
  release_and_close release close g = record {
    leads = false;
    calls = close_call close ∷ release_if g.leads release g.calls;
  }
