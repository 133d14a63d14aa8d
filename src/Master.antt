-- ===== src/Master.antt =====
-- The master side of object versioning: co/objectCM.cpp, co/versionedMasterCM.cpp and
-- co/fullMasterCM.cpp. One state record serves the three classes, which inherit from one another.
pub mod State
pub mod Full
pub mod Mapping
pub mod Slaves
pub mod History
