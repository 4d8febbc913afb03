-- ===== src/Daemon.antt =====
-- crates/logos-messaging-a2a-cli/src/daemon: what clients ask of a running daemon and how.
pub mod Frame
pub mod Protocol
pub mod Wire
pub mod Server
pub mod Connection
