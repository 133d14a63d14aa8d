-- ===== src/Rsp/Repeat.antt =====
-- co/rspConnection.cpp: _repeatData, _addRepeat, _handleNack and the choice of _processOutgoing.
pub mod Rounds
pub mod Merging
pub mod Whole
use collage.Prelude.{
  ℕ, zero, suc, ◌+◌, ◌-◌, ◌%◌, Bool, not, ◌&&◌, ◌||◌, Option, none, some, List, [], ◌∷◌, ◌++◌, ltb,
  leb, ◌==◌, if◌then◌else◌, length,
}
use collage.Rsp.State.{
  Data, Nack, Datagram, data_packet, Settings, Listener, find_connection, u16_mod, sub16,
}
use collage.Rsp.Send.{write_data}

-- The end of the loop of _repeatData: the front request is done, or moves to its next packet.
abbrev pub next_request : Nack → List Nack → List Nack
next_request n q = if n.first == n.last then q else record n { first = (n.first + 1) % u16_mod } ∷ q

abbrev pub packet_at : ℕ → List Data → Option Data
packet_at i [] = none
packet_at zero (d ∷ ds) = some d
packet_at (suc i) (d ∷ ds) = packet_at i ds

abbrev pub packet_list : Option Data → List Datagram
packet_list none = []
packet_list (some d) = data_packet d ∷ []

-- _repeatData, by rounds of its loop. Requests that name no kept packet are passed over.
unfoldable pub repeat_rounds : ℕ → Listener → Listener
repeat_rounds zero l = l
repeat_rounds (suc fuel) l = elim l.repeat_queue [
  | [] ↦ l
  | n ∷ q ↦
      let distance = sub16 l.sequence n.first in
      let passed = repeat_rounds fuel (record l { repeat_queue = q }) in
      let moved = repeat_rounds fuel (record l { repeat_queue = next_request n q }) in
      if distance == 0
      then passed
      else if leb distance (length l.write_buffers)
      then record l {
        repeat_queue = next_request n q;
        sent =
            l.sent ++ packet_list (packet_at (length l.write_buffers - distance) l.write_buffers);
      }
      else moved
]

-- The packets that the requests name.
abbrev pub requested : List Nack → ℕ
requested [] = 0
requested (n ∷ q) = (sub16 n.last n.first + 1) + requested q

-- A request of k packets takes at most k rounds.
unfoldable pub repeat_data : Listener → Listener
repeat_data l = repeat_rounds (requested l.repeat_queue) (record l { timeouts = 0 })

-- _addRepeat: a nack that overlaps an old one widens it, and is queued if it widens none.
abbrev pub overlaps : Nack → Nack → Bool
overlaps n old = leb old.first n.last && leb n.first old.last

abbrev pub widens : Nack → Nack → Bool
widens n old = ltb n.first old.first || ltb old.last n.last

abbrev pub widen : Nack → Nack → Nack
widen n old = record {
  first = if ltb n.first old.first then n.first else old.first;
  last = if ltb old.last n.last then n.last else old.last;
}

unfoldable pub add_nack : Nack → List Nack → List Nack
add_nack n [] = n ∷ []
add_nack n (old ∷ q) =
    if overlaps n old && widens n old then widen n old ∷ q else old ∷ add_nack n q

unfoldable pub add_repeat : List Nack → List Nack → List Nack
add_repeat [] q = q
add_repeat (n ∷ ns) q = add_repeat ns (add_nack n q)

-- _handleNack; none is its result false, for an unknown reader.
unfoldable pub handle_nack : Listener → ℕ → ℕ → List Nack → Option Listener
handle_nack l reader_id writer_id nacks =
    if not (l.id == writer_id) then some l else elim (find_connection reader_id l.children) [
      | none ↦ none
      | some c ↦ some (record l { timeouts = 0; repeat_queue = add_repeat nacks l.repeat_queue })
    ]

-- _processOutgoing, its first test
unfoldable pub process_outgoing : Settings → Listener → Option Listener
process_outgoing settings l =
    if length l.repeat_queue == 0 then write_data settings l else some (repeat_data l)
