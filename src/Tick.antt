-- ===== src/Tick.antt =====
-- tick: the computations on fire times.
pub mod Interval
pub mod Cron
pub mod Solar
pub mod Cadence
pub mod CatchUp
pub mod Tests
