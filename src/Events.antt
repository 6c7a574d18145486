-- ===== src/Events.antt =====
-- app/events: reported and detected grid events.
pub mod Models
pub mod Revisions
pub mod Lifecycle
pub mod Rules
pub mod Processor
pub mod Observed
mod Examples
pub mod Relevance
