-- ===== src/Slave.antt =====
-- The slave side of object versioning: co/objectDataIStream.cpp assembles commands to versions,
-- co/versionedSlaveCM.cpp queues and applies them.
pub mod Versions
pub mod Manager
