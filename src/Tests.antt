-- ===== src/Tests.antt =====
-- Witnesses of the theorems at concrete inputs, and tests.
mod Sample
mod Outbox
mod ReceivedItems
mod Encoding
mod Repository
mod Session
mod Protocol
mod Options
