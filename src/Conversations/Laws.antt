-- ===== src/Conversations/Laws.antt =====
-- Theorems about the conversation store.
pub mod Routing
pub mod Status
pub mod Reading
pub mod Restart
pub mod Current
pub mod Listing
mod Tests
