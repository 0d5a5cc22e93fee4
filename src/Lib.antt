-- ===== src/Lib.antt =====
-- A verification of the core of z4j-scheduler: the in-memory schedule cache, the applier of the
-- ordered Watch stream and the health of that stream, the assembly of snapshots, the quarantine
-- reporter, the shadow comparison, the computation of fire times and of catch-up, the tick engine, the
-- dispatcher of fires and the leader gates.
--
-- The scheduler keeps a copy of every schedule of a Brain. The Brain sends snapshots and a stream of
-- changes, each with a revision; the cache (`ScheduleCache` in src/z4j_scheduler/storage/cache.py)
-- merges them, holds back rows that a local latch disables, and answers the tick engine, which asks
-- for the rows that are due, computes their next fires (src/z4j_scheduler/tick) and records the fires
-- that the Brain accepted. The ordered stream goes through `OrderedWatchApplier`
-- (src/z4j_scheduler/storage/_watch_v2.py), which owns a cursor and calls the cache. The tick engine
-- asks the leader gate for each project, prepares the successor of every slot of its plan, and calls
-- the dispatcher for one slot after the other; what the Brain answers moves the cursor of the cached
-- row, or stops the row.
--
-- The files and the code:
--   Prelude, Dict: shared helpers. A dict is an association list with the laws of Dict/Laws and the
--     sums of Dict/Distinct.
--   Entry: src/z4j_scheduler/tick/_entry.py, under the same names.
--   Cache: src/z4j_scheduler/storage/cache.py. State has the fields of the class and its errors; Rows
--     the rows and the project counts; Latches the quarantines, the stops and the fire state; Watch
--     `upsert`, `apply_watch_update` and their bulk forms; Cursor `apply_cursor_transition`; Deletes
--     `remove`, `clear`, `apply_tombstone` and `apply_observed_absence`; Snapshot
--     `apply_completed_snapshot`; Due `next_due` and `all_due`. Invariant has the well-formedness of a
--     cache and a child for each group of methods; Calls has sequences of calls; Races has two latches,
--     or a latch and an update, that meet in one row; Fixtures the data of the tests.
--   WatchV2: src/z4j_scheduler/storage/_watch_v2.py, with the frames of _models.py beside it.
--   WatchStream: src/z4j_scheduler/storage/watch.py, the health of the stream, its outage clock and the
--     delay between reconnects, before the jitter. Sync has the full syncs, the current stream and the
--     loop of reconnects.
--   SnapshotWire: src/z4j_scheduler/storage/_snapshot_wire.py, the assembly of a snapshot from its
--     frames.
--   Quarantine: src/z4j_scheduler/storage/quarantine.py, the queue of quarantine reports.
--   ShadowComparator: src/z4j_scheduler/verify/shadow_comparator.py, the comparison of the fires that
--     two schedulers predict.
--   Tick: Interval, CatchUp, Cron and Solar are the files of src/z4j_scheduler/tick of these names, and
--     Cadence is cadence.py, one_shot.py and the dispatch on the kind in engine.py.
--   Convert: src/z4j_scheduler/storage/_convert.py, with schedules in the module itself and the frames
--     and answers of the Brain in Messages and the requests to it in Requests.
--   Dispatch: src/z4j_scheduler/dispatch/fire.py with the results of storage/_models.py. Retry is
--     `_fire_with_retry`, Fire the methods around it.
--   Engine: src/z4j_scheduler/tick/engine.py, with the fields of `TickEngine`. Marks has the back-off, the
--     follower's park, the judgement of a slot and the claim of an iteration; Backlog the missed slots and
--     the plan; Stops the quarantines and the cadence mismatch; Drain the loop over the slots; Fire
--     `_fire_with_catch_up`; Upkeep `_prune_stale_fire_state` and `_compute_pending_next_fires`; Wake the
--     scan of `_sleep_until_next` and the supervisor of `run`.
--   Leader: src/z4j_scheduler/leader/postgres.py, the cycles of both gates, and `AsyncpgLockBackend` in
--     Asyncpg. A lock is the server's, which drops it with the connection: a gate learns of that from a
--     call that fails, so that until its next health check it may say that it leads a project whose lock
--     is gone. The server's locks are not modelled, only the calls that a gate made with their answers.
--
-- A method of the cache is a function from the cache to the cache and a result, which is a value or
-- the error that it raises; the cache is returned in both cases. The lock makes a method one step.
-- The event `changed` is a flag, and the calls of the snapshot hook are a list.
-- `_apply_watch_update_locked` is its checks, in the order of the code (`watch_verdict`), and what it
-- does when they pass.
--
-- Representation: ids, revisions and instants are natural numbers, an instant the microseconds since
-- the Unix epoch, so that negative revisions and instants before 1970 have no counterpart. A row is a
-- value in the store: rows that a caller of the cache holds are not aliased, but for the engine's
-- (below). An expression is a list of ASCII code points, and an aware datetime is in UTC.
-- `datetime.fromtimestamp(seconds + nanos / 1e9)` in src/z4j_scheduler/storage/_convert.py is the double
-- arithmetic of the code, rounding for rounding, for instants up to the year 9999 (Convert/Floats).
-- `int(anchor.timestamp())` is the whole seconds of the instant, which the float gives exactly until
-- the year 2514.
--
-- Parameters: the digest of a snapshot, SHA-256 over canonical JSON in
-- src/z4j_scheduler/storage/_snapshot.py, is an argument of `apply_completed_snapshot`, of which
-- nothing is assumed. So are the readers of ids and of rows in the assembler (`UUID` and
-- `entry_from_pb`), and the answers of the Brain client in the quarantine reporter. While a report is
-- tried no other task runs.
--
-- The engine's `World` holds what its environment answers, by the point of the loop where it is asked:
-- the stop event, the health of the watch, the leader gate, the dispatcher, the Brain's answer to a
-- cursor advance, and what other tasks do to the engine while it awaits. The engine's entry is the
-- cache's own object until another task replaces it, and the drain follows that alias. croniter, the
-- zone database, the reader of ISO dates, the parser of solar expressions and the events of astral are
-- parameters, as are the RPCs and the UUIDs of the dispatcher and the answers of the lock backend in
-- each cycle of a gate.
--
-- A wire message has the fields that the code reads or writes, and an enumeration is its number in
-- proto/scheduler.proto. The parser of UUIDs with its inverse, and the fingerprint of the cadence
-- runtime, are parameters of the conversion.
--
-- Fuel and bounds: the retry loop of the dispatcher takes the configured number of attempts as fuel,
-- and the walk of cron's `fires_between` the end of its window plus two, which are enough for the
-- loops to end. The solar scan has the code's own ceiling. The loop with which the interval slots are
-- compared takes fuel, and the length of the window is enough. `int` takes at most 4300 digits, a
-- `timedelta` at most 999999999 days, and a datetime ends with the year 9999.
--
-- Not modelled: the workers, waits and the drain of the engine, the legacy stream and the transport of
-- the Watch client, the reports and acknowledgements on the wire, the prediction of fires for the
-- comparator, importers and exporters, and the I/O around them (gRPC, HTTP, command line, settings,
-- metrics).
pub mod Prelude
pub mod Leader
pub mod Dict
pub mod Convert
pub mod Dispatch
pub mod Engine
pub mod Entry
pub mod Cache
pub mod SnapshotWire
pub mod WatchStream
pub mod WatchV2
pub mod Quarantine
pub mod ShadowComparator
pub mod Tick
