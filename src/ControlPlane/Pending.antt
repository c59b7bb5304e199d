-- ===== src/ControlPlane/Pending.antt =====
-- core/control_plane/pending.py: the commands that wait for an acknowledgement, and the matching of
-- acknowledgements to them.
mod Store
pub mod WellFiled
pub mod Echo
pub mod Correlation
unfoldable pub use Store.*
