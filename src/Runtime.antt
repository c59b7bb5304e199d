-- ===== src/Runtime.antt =====
-- core/control_plane/runtime.py: what is kept of the transactions, and the status of each node.
mod Choice
mod Model
mod Dispatch
pub mod Chosen
pub mod Newest
unfoldable pub use Choice.*
unfoldable pub use Model.*
unfoldable pub use Dispatch.*
