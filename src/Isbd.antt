-- ===== src/Isbd.antt =====
-- lib/iridium/isbd: the service that sends and receives messages.
pub mod Kernel
pub mod Message
pub mod Queue
pub mod Service
pub mod Send
pub mod Blocks
pub mod Setup
pub mod Retry
pub mod Delivery
pub mod Action
pub mod Atomic
pub mod Events
