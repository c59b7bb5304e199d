-- ===== src/Ota.antt =====
-- Updates of the nodes' firmware over the air.
pub mod Campaign
