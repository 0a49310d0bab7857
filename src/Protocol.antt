-- ===== src/Protocol.antt =====
-- worlds/jak3/agents/protocol.py: the client's side of Protocol 3.
pub mod Messages
pub mod Contract
pub mod TimedOut
pub mod Session
pub mod Commands
pub mod Acknowledge
