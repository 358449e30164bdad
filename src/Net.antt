-- ===== src/Net.antt =====
-- The network of network/priority.
pub mod Messages
pub mod Buffer
pub mod Send
pub mod Receive
mod Tests
