-- ===== src/ControlPlane/Protocol.antt =====
-- core/control_plane/protocol.py: the OKUA_CMD packets that the application sends and the OKUA_ACK
-- packets that it reads. `struct` packs are little-endian fields one after the other.
mod Build
mod Ack
pub mod Sequence
pub mod Wire
pub mod AckLayout
pub mod Commands
unfoldable pub use Build.*
unfoldable pub use Ack.*
