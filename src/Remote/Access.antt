-- ===== src/Remote/Access.antt =====
-- services/remote_api_auth.py: what a request to the remote interface may do.
mod Model
pub mod Permissions
pub mod Distinct
pub mod Bearers
unfoldable pub use Model.*
