-- ===== src/Screens/Laws.antt =====
-- Theorems about the screens.
pub mod Composer
pub mod Contacts
pub mod Format
pub mod Group
mod ContactTests
mod Tests
