-- ===== src/Barrier.antt =====
-- co/barrier.cpp: nodes that wait for each other.
pub mod State
pub mod Requests
pub mod Entering
pub mod Notified
pub mod Opening
pub mod Leaving
