-- ===== src/Sha256/Laws.antt =====
-- What holds of SHA-256: its padding, and its digest.
pub mod Padding
pub mod Digest
mod Tests
