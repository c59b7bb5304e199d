-- ===== src/Remote/Sessions.antt =====
-- services/remote_session_service.py: the sessions of users who have signed in.
mod Model
pub mod Lifetime
pub mod Histories
unfoldable pub use Model.*
