-- ===== src/Udp/Packet.antt =====
-- OKUA_EVT and OKUA_STAT: core/udp/packet_models.py, packet_parser.py and ota_runtime.py, and the
-- sender in tools/udp_okua_v1_sender.py.
mod Ota
mod Reader
mod Sender
pub mod Events
pub mod Status
pub mod Accepted
unfoldable pub use Ota.*
unfoldable pub use Reader.*
unfoldable pub use Sender.*
