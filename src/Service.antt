-- ===== src/Service.antt =====
-- service/: the core that a service answers through, and the registry of services. What the bus and a
-- service answer is an argument.
pub mod Core
pub mod Answers
pub mod Registry
pub mod Streams
mod Tests
