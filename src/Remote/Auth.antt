-- ===== src/Remote/Auth.antt =====
-- services/remote_auth_service.py: who may sign in to the remote console, and the accounts' passwords.
mod Passwords
mod Accounts
mod Bootstrap
mod Service
pub mod Hashes
pub mod Calls
pub mod Signing
unfoldable pub use Passwords.*
unfoldable pub use Accounts.*
unfoldable pub use Bootstrap.*
unfoldable pub use Service.*
