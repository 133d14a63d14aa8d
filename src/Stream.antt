-- ===== src/Stream.antt =====
-- Object data streams: co/dataOStream.cpp writes them in packets, co/dataIStream.cpp and
-- co/objectDataIStream.cpp read them. The compressor plugins of the Pression library are a
-- parameter.
pub mod Out
pub mod In
pub mod RoundTrip
