-- ===== src/Udp.antt =====
-- The OKUA packets that nodes send (src/control_okua/core/udp).
pub mod Packet
