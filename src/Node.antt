-- ===== src/Node.antt =====
-- Models of crates/logos-messaging-a2a-node: live peers, delegation, streams and sessions.
pub mod Peers
pub mod Load
pub mod Selection
pub mod Delegation
pub mod Streaming
pub mod Session
pub mod Payment
pub mod Poll
pub mod Payload
pub mod Outgoing
pub mod Encryption
pub mod Announcing
pub mod Discovery
pub mod History
pub mod Respond
