-- ===== src/Encoding/Payload.antt =====
-- `to_payload` and `from_payload` of `PersistentState` (worlds/jak3/persistence.py).
pub mod Write
pub mod Read
pub mod State
pub mod Parts
pub mod Counts
pub mod IsJson
pub mod RoundTrip
