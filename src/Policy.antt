-- ===== src/Policy.antt =====
-- The eviction policies: the LRU list and the LFU heap, and the choice between them that the hash
-- table makes at its construction (EvictionPolicy in engine/include/hash_table.h).
pub mod StringMap
pub mod Lru
pub mod Lfu
pub mod Tracker
pub mod Keys
pub mod Accounts
pub mod Candidates
