-- ===== src/Leader/Asyncpg.antt =====
-- leader/postgres.py: `AsyncpgLockBackend`, the backend of production, around a connection of asyncpg. A
-- lock is the server's, which drops it with the connection; the backend does not look for that.
use z4j_scheduler.Prelude.{ℕ, Bool, true, false}
use z4j_scheduler.Quarantine.{Answer, answered, failed}

-- What asyncpg answers: the connect, the two queries on a lock by its key, `SELECT 1` and the close.
pub record Asyncpg : Type 0 where
  pub connect : Answer (Unit {0})
  pub try_advisory_lock : ℕ → Answer Bool
  pub advisory_unlock : ℕ → Answer Bool
  pub select_one : Answer (Unit {0})
  pub close : Answer (Unit {0})

-- `_conn is not None`, after `_ensure_conn`, with whether it raised.
unfoldable ensure_conn : Asyncpg → Bool → Answer (Unit {0}) × Bool
ensure_conn a true = (answered tt, true)
ensure_conn a false = elim a.connect [ failed ↦ (failed, false) | answered u ↦ (answered tt, true) ]

abbrev on_conn : {A : Type 0} → Answer A → Answer (Unit {0}) × Bool → Answer A × Bool
on_conn query (failed, conn) = (failed, conn)
on_conn query (answered u, conn) = (query, conn)

unfoldable acquire : Asyncpg → ℕ → Bool → Answer Bool × Bool
acquire a key conn = on_conn (a.try_advisory_lock key) (ensure_conn a conn)

unfoldable health_check : Asyncpg → Bool → Answer (Unit {0}) × Bool
health_check a conn = on_conn a.select_one (ensure_conn a conn)

-- The error of the query is ignored.
abbrev ignored : Answer Bool → Answer (Unit {0})
ignored failed = answered tt
ignored (answered b) = answered tt

unfoldable release : Asyncpg → ℕ → Bool → Answer (Unit {0}) × Bool
release a key false = (answered tt, false)
release a key true = (ignored (a.advisory_unlock key), true)

-- The error of the close is suppressed, and the connection is forgotten.
abbrev suppressed : Answer (Unit {0}) → Answer (Unit {0})
suppressed failed = answered tt
suppressed (answered u) = answered tt

unfoldable close : Asyncpg → Bool → Answer (Unit {0}) × Bool
close a false = (answered tt, false)
close a true = (suppressed a.close, false)
