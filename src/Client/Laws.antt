-- ===== src/Client/Laws.antt =====
-- Theorems about the client.
pub mod Reconnect
pub mod Down
pub mod Linking
pub mod Discover
pub mod Races
pub mod Copies
pub mod Fanout
mod Tests
mod AccountTests
