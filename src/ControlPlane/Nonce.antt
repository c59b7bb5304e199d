-- ===== src/ControlPlane/Nonce.antt =====
-- core/control_plane/nonce_manager.py: the 64-bit nonces of the commands, and the epoch that makes
-- them grow over restarts. The JSON state file is modelled by what a read of it gives.
mod Manager
pub mod Order
unfoldable pub use Manager.*
