-- ===== src/ControlPlane.antt =====
-- The control plane (src/control_okua/core/control_plane): signed commands to the nodes, and the
-- acknowledgements that come back.
pub mod Auth
pub mod Protocol
pub mod Nonce
pub mod Pending
pub mod Audit
