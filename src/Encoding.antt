-- ===== src/Encoding.antt =====
-- The encoding of states as file contents: canonical JSON in a checksummed envelope.
pub mod Json
pub mod Payload
pub mod Envelope
pub mod Authorization
