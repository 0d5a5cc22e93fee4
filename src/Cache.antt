-- ===== src/Cache.antt =====
-- storage/cache.py: the authoritative in-memory copy of every schedule. The children follow the
-- class: its state, the rows and their counts, the latches, the Watch merge, the cursor, deletes,
-- snapshots and the reads.
pub mod State
pub mod Rows
pub mod Latches
pub mod Invariant
pub mod Watch
pub mod Cursor
pub mod Deletes
pub mod Snapshot
pub mod Due
pub mod Calls
pub mod Races
pub mod Fixtures
pub mod Tests
