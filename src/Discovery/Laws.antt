-- ===== src/Discovery/Laws.antt =====
-- What holds of the discovery client: its requests and errors, the deletion of the account, and the
-- requests that share a refresh.
pub mod Requests
pub mod Tokens
pub mod Sharing
pub mod Alone
mod Tests
