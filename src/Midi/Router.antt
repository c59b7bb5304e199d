-- ===== src/Midi/Router.antt =====
-- core/midi/midi_router.py: messages on their way to the MIDI ports.
mod Model
pub mod Steps
pub mod Feeding
pub mod Order
pub mod Kept
unfoldable pub use Model.*
