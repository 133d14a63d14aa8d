-- ===== src/Cache.antt =====
-- co/instanceCache.cpp: received object versions, kept for objects that may be mapped later.
pub mod Items
pub mod Evict
pub mod Operations
pub mod Sizes
pub mod Pinned
pub mod History
