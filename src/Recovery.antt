-- ===== src/Recovery.antt =====
-- Recovery from a crash: how the table of engine/src/hash_table.cpp writes its log (engine/src/wal.cpp) and
-- what `replay_wal` makes of what a crash leaves of it.
pub mod Logs
pub mod Calls
pub mod Prefix
pub mod Replay
pub mod Crash
pub mod Records
pub mod Exact
pub mod Restart
