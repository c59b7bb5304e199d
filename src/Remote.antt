-- ===== src/Remote.antt =====
-- The remote console: its users, its sessions, and what a request may do.
pub mod Users
pub mod Auth
pub mod Sessions
pub mod Access
