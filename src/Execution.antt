-- ===== src/Execution.antt =====
-- crates/logos-messaging-a2a-execution: what a chain does for agents.
pub mod StatusNetwork
