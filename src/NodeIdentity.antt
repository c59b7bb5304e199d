-- ===== src/NodeIdentity.antt =====
-- core/node_identity_policy.py: the box, the slot, the label and the MIDI bus of a node.
mod Policy
pub mod Layout
unfoldable pub use Policy.*
