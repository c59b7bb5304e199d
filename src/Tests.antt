-- ===== src/Tests.antt =====
-- Runs at concrete inputs.
mod Command
mod Control
mod Nonces
mod Packet
mod Stream
mod Transaction
mod Router
mod Runtime
mod Registry
mod Node
mod Remote
mod Access
mod Campaign
