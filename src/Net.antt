-- ===== src/Net.antt =====
-- crates/ripsync-core/src/net: the remote protocol. A connection is, for each side, the messages
-- that are to come and those that were sent: Net/Transport has it that the messages that one side
-- sends are those that the other receives.
pub mod Transport
pub mod Proto
pub mod Handshake
pub mod Sender
pub mod Receiver
pub mod Session
pub mod Roles
mod Tests
