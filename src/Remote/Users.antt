-- ===== src/Remote/Users.antt =====
-- services/remote_user_store.py: the accounts of the remote console, in a JSON file.
mod Model
mod Store
mod Methods
pub mod Records
pub mod Sorting
pub mod Normal
pub mod Kept
pub mod Sound
pub mod Steps
pub mod Found
unfoldable pub use Model.*
unfoldable pub use Store.*
unfoldable pub use Methods.*
