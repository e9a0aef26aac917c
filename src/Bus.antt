-- ===== src/Bus.antt =====
-- bus/: channels, their manager, and delivery to handlers.
pub mod Activity
pub mod Channel
pub mod Delivery
pub mod Manager
pub mod Events
mod Tests
