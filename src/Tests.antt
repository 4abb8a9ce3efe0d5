-- ===== src/Tests.antt =====
-- The theorems applied to small concrete inputs, and runs of the definitions on them.
mod Tables
mod Policies
mod Logs
mod Recoveries
mod Caches
mod Engines
mod Snapshots
mod Protocol
mod Servers
