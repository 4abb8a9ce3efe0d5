-- ===== src/Resp.antt =====
-- The wire protocol: engine/include/resp.h and engine/src/resp.cpp.
pub mod Decimal
pub mod Value
pub mod Parser
pub mod Command
