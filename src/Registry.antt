-- ===== src/Registry.antt =====
-- The nodes that are seen, and how they fare (src/control_okua/core/registry).
mod Float
mod Models
mod Policy
mod Losses
mod Events
mod Node
mod Nodes
mod Snapshots
mod Frames
pub mod Calls
pub mod Tracks
pub mod Accounting
pub mod Silence
pub mod Keeping
pub mod Invariant
unfoldable pub use Float.*
unfoldable pub use Models.*
unfoldable pub use Policy.*
unfoldable pub use Losses.*
unfoldable pub use Events.*
unfoldable pub use Node.*
unfoldable pub use Nodes.*
unfoldable pub use Snapshots.*
