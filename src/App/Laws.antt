-- ===== src/App/Laws.antt =====
-- Theorems about the app.
pub mod Launch
pub mod Navigation
pub mod Push
mod Tests
