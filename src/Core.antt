-- ===== src/Core.antt =====
-- core: what a node does with the messages of the other nodes.
pub mod Message
pub mod Parsing
pub mod Net
pub mod Handlers
pub mod Loop
pub mod Dispatch
pub mod Slices
mod Taking
pub mod Transfer
pub mod Filter
pub mod Relay
pub mod Asking
mod Tests
pub mod View
pub mod QueryCache
pub mod Sorted
pub mod Scheduler
