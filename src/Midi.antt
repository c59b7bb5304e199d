-- ===== src/Midi.antt =====
-- MIDI (src/control_okua/core/midi).
pub mod Parser
pub mod Router
