-- ===== src/Log.antt =====
-- crates/starweld-core/src/log.rs: the log, a ring of entries that are replayed onto the file.
pub mod Entry
pub mod Scan
pub mod Replay
pub mod Parsed
pub mod Writes
pub mod Effects
pub mod Recovery
pub mod Runs
pub mod Ring
pub mod Sorting
pub mod Rounds
pub mod Collected
