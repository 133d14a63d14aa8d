-- ===== src/Lib.antt =====
-- Collage: versioned distributed objects over a network of nodes.
--
-- An object has one master and any number of slaves. The master's change manager turns each commit
-- into a new version, whose bytes an output stream packs into packets; it keeps old versions for
-- slaves that map the object late. A slave's change manager collects the packets of each version in
-- an input stream, queues the complete ones and applies them when the application syncs. Versions
-- that a node has seen are kept in its instance cache, from which a later mapping is served.
--
-- Where each part is modelled:
--   Prelude: Boolean tests, lists, sets and word sizes that all parts share.
--   Master.State: the state of co/fullMasterCM.h and co/versionedMasterCM.h, and the messages.
--   Master.Full: co/fullMasterCM.cpp (commit, _updateCommitCount, _obsolete, init).
--   Master.Mapping: _initSlave, push and sendSync of co/fullMasterCM.cpp, replies of co/objectCM.cpp.
--   Master.Slaves: co/versionedMasterCM.cpp (addSlave, removeSlave, removeSlaves, _cmdMaxVersion).
--   Master.History: all operations of a master as a step relation.
--   Stream.Out: co/dataOStream.cpp. Stream.In: co/dataIStream.cpp, co/objectDataIStream.cpp.
--   Slave.Versions: co/objectDataIStream.cpp. Slave.Manager: co/versionedSlaveCM.cpp.
--   Cache: co/instanceCache.cpp. Barrier: co/barrier.cpp.
--   Rsp: co/rspConnection.cpp. Rsp.State: a listener and its child connections. Rsp.Receive:
--     _handleData. Rsp.Missing: _handleAckRequest. Rsp.Send: write, _writeData, _handleAck and
--     _finishWriteQueue. Rsp.Repeat: _addRepeat and _repeatData. Rsp.Members: who is in the group.
--     Rsp.Dispatch: _handlePacket.
--   Description: co/connectionDescription.cpp, and in Description.Nodes the text of co/node.cpp.
--   ObjectMap: co/objectMap.cpp.
--   Replication: a master and a slave together, each commit delivered in one packet and in order.
--   Tests: concrete runs.
--
-- State is passed explicitly: an operation takes the state and returns the new one, with the
-- messages that it sends as a list. An operation that blocks returns none while it would wait, or
-- says what it waits for. Numbers are natural numbers with the wrap-around of the source's width
-- written out. The model is that of a release build: an assertion is no guard. Fuel is used twice:
-- in the second loop of InstanceCache::_releaseItems, as many rounds as there are streams, of which
-- each removes one, and in the loop of RSPConnection::_repeatData, as many rounds as packets are
-- requested.
--
-- Parameters of the model: lunchbox::usort, the compressor and its decompressor, the application's
-- object with what it does with a full instance and with a delta, and the 80% mark of the instance
-- cache, which the source computes with floats, the default timeout of a barrier, the identifier
-- that a member of a multicast group draws at random, and the printing and parsing of numbers and of
-- identifiers.
--
-- Not modelled: threads and locks (each operation is one step), connections and their set-up, byte
-- swapping, logging, the other change managers and the work queues; of the reliable stream protocol the
-- send rate, the timers, and opening and closing.
pub mod Prelude
pub mod Master
pub mod Stream
pub mod Slave
pub mod Cache
pub mod Barrier
pub mod Rsp
pub mod Description
pub mod ObjectMap
pub mod Replication
pub mod Tests
