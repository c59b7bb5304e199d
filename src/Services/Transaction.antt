-- ===== src/Services/Transaction.antt =====
-- services/control_transaction_service.py: a command, its acknowledgement, its retries.
mod Model
mod Waiting
mod Results
mod Attempts
mod Rule
pub mod Settled
pub mod Own
pub mod Clean
pub mod Returning
pub mod Sends
pub mod Bounds
unfoldable pub use Model.*
unfoldable pub use Waiting.*
unfoldable pub use Results.*
unfoldable pub use Attempts.*
