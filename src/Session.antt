-- ===== src/Session.antt =====
-- core/session: the states of a session and the events that move it.
mod Machine
pub mod Lifecycle
unfoldable pub use Machine.*
