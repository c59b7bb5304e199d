-- ===== src/Services/Cmd.antt =====
-- services/cmd_service.py: commands on their way to a node.
mod Sending
pub mod Traced
pub mod Replay
unfoldable pub use Sending.*
