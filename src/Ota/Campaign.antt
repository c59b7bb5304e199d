-- ===== src/Ota/Campaign.antt =====
-- core/firmware/ota_campaign_models.py and services/ota_campaign_service.py: updates of many nodes, a
-- canary first and then wave by wave.
mod Nodes
mod Plan
mod Gate
mod Service
mod Statuses
mod Aggregate
mod Operations
mod Running
pub mod Waves
pub mod Cutting
pub mod Counted
pub mod Assigning
pub mod Assigned
pub mod Health
pub mod Chosen
pub mod Safety
pub mod Reached
pub mod Continuing
pub mod Skipping
unfoldable pub use Nodes.*
unfoldable pub use Plan.*
unfoldable pub use Gate.*
unfoldable pub use Service.*
unfoldable pub use Statuses.*
unfoldable pub use Aggregate.*
unfoldable pub use Operations.*
unfoldable pub use Running.*
