-- ===== src/Tests.antt =====
-- Concrete runs of the modelled code.
pub mod Master
pub mod Stream
pub mod Slave
pub mod Cache
pub mod Barrier
pub mod Rsp
pub mod Description
pub mod ObjectMap
pub mod Replication
