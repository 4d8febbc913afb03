-- ===== src/Sds.antt =====
-- crates/logos-messaging-a2a-transport/src/sds: reliable delivery with causal ordering.
pub mod Message
pub mod Bloom
pub mod State
pub mod Channel
pub mod Exec
pub mod Send
