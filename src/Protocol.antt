-- ===== src/Protocol.antt =====
-- crates/posebridge-core/src/protocol.rs: the WIT stream profiles, the register replies and the
-- register commands. A byte is a number below 256.
pub mod Calendar
pub mod Frame
pub mod Parser
