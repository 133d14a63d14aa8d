-- ===== src/Rsp/Dispatch.antt =====
-- co/rspConnection.cpp: _handleConnectedData, and _handlePacket of a listener that is connected.
use collage.Prelude.{ℕ, true, Option, none, some, List}
use collage.Rsp.State.{Data, Nack, Settings, Listener}
use collage.Rsp.Receive.{handle_data}
use collage.Rsp.Missing.{handle_ack_request}
use collage.Rsp.Send.{handle_ack}
use collage.Rsp.Repeat.{handle_nack, process_outgoing}
use collage.Rsp.Members.{NodeType, handle_init_data}

-- The datagrams, with their fields in the order reader, writer, rest.
pub data Incoming : Type 0 where
  data_datagram : Data → Incoming
  ack_datagram : ℕ → ℕ → ℕ → Incoming
  nack_datagram : ℕ → ℕ → List Nack → Incoming
  ack_request : ℕ → ℕ → Incoming
  node_datagram : NodeType → ℕ → ℕ → Incoming

-- none where a handler's result is false, for which the source's check aborts.
unfoldable handle_connected_data : Settings → Incoming → Listener → Option Listener
handle_connected_data settings (data_datagram d) l = handle_data settings l d
handle_connected_data settings (ack_datagram reader_id writer_id sequence) l =
    handle_ack settings l reader_id writer_id sequence
handle_connected_data settings (nack_datagram reader_id writer_id nacks) l =
    handle_nack l reader_id writer_id nacks
handle_connected_data settings (ack_request writer_id sequence) l =
    handle_ack_request settings l writer_id sequence
handle_connected_data settings (node_datagram t id sequence) l =
    some (handle_init_data settings true t id sequence l)

unfoldable handle_packet : Settings → Incoming → Listener → Option Listener
handle_packet settings i l = elim (handle_connected_data settings i l) [
  | none ↦ none
  | some handled ↦ process_outgoing settings handled
]
