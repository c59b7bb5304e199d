-- ===== src/Midi/Parser.antt =====
-- core/midi/byte_stream_parser.py: the incremental reader of MIDI bytes.
mod Model
mod Consume
mod Feed
pub mod WellFormed
mod DataBytes
mod StatusBytes
pub mod Invariant
pub mod Frame
pub mod Chunks
unfoldable pub use Model.*
unfoldable pub use Consume.*
unfoldable pub use Feed.*
