-- ===== src/Node.antt =====
-- Sources/miniDHT.h and Sources/miniDHT.cpp: a node, its messages and its handlers.
pub mod State
pub mod Send
pub mod Store
pub mod Wire
pub mod Iterate
pub mod Handle
pub mod Eviction
pub mod Batches
pub mod Routing
pub mod Public
pub mod Pings
pub mod Keeps
pub mod Sound
pub mod Periodic
pub mod Thread
pub mod Disconnect
pub mod Run
pub mod Known
pub mod Network
pub mod Acknowledged
