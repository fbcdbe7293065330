-- ===== src/Tests.antt =====
-- The development at concrete inputs: instances of the interfaces, tests and examples.
pub mod Heap
pub mod Peer
pub mod Rings
pub mod Events
pub mod Tokens
pub mod Connections
pub mod Groups
pub mod Reaching
pub mod Tasks
pub mod Sockets
pub mod Bounds
