-- ===== src/Persistence.antt =====
-- worlds/jak3/persistence.py
pub mod State
pub mod Identity
pub mod Journal
pub mod Locations
pub mod Validate
pub mod Create
pub mod Equal
