-- ===== src/Services.antt =====
-- The services that use the control plane (src/control_okua/services).
pub mod Cmd
pub mod AckListener
pub mod Transaction
