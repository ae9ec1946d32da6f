-- ===== src/Relay/Laws.antt =====
-- Theorems about the connection to the relay.
pub mod Receipts
pub mod Promises
mod Tests
