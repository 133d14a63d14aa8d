-- ===== src/Rsp.antt =====
-- The reliable stream protocol over UDP multicast: co/rspConnection.cpp and co/rspConnection.h.
-- Each listener writes a stream of numbered datagrams; it has a child connection for every writer of
-- the group, itself included, from which the application reads.
pub mod State
pub mod Receive
pub mod Missing
pub mod Send
pub mod Repeat
pub mod Members
pub mod Dispatch
