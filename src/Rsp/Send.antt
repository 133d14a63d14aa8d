-- ===== src/Rsp/Send.antt =====
-- co/rspConnection.cpp: what a listener does with its own stream: write, _writeData,
-- _finishWriteQueue and _handleAck. The send rate, which is computed with floats, and
-- the waiting for it are left out.
pub mod Acked
pub mod Finished
pub mod Advance
pub mod HandleAck
pub mod Pieces
pub mod Merge
pub mod Packets
pub mod WriteData
use collage.Prelude.{
  ℕ, zero, suc, ◌+◌, ◌-◌, ◌*◌, ◌/◌, ◌%◌, Bool, not, ◌&&◌, ◌||◌, Option, none, some, List, [], ◌∷◌,
  ◌++◌, ltb, leb, ◌==◌, if◌then◌else◌, length, take, drop,
}
use collage.Rsp.State.{
  Data, data_packet, Settings, Child, Listener, find_connection, put_connection, u16_mod, sub16,
}

-- The datagrams of write, in pieces of at most _payloadSize bytes; `n` is their number.
abbrev pub pieces : ℕ → ℕ → List ℕ → List (List ℕ)
pieces size zero bytes = []
pieces size (suc n) bytes = take size bytes ∷ pieces size n (drop size bytes)

abbrev pub count_pieces : ℕ → ℕ → ℕ
count_pieces size bytes = let n = bytes / size in if (n * size) == bytes then n else n + 1

-- The loop of write: each datagram takes an empty buffer; none if there is none until the timeout,
-- upon which the connection is closed.
unfoldable pub queue_pieces : Listener → List (List ℕ) → Option Listener
queue_pieces l [] = some l
queue_pieces l (p ∷ ps) =
    let queued =
      queue_pieces
        (record l {
          empty_buffers = l.empty_buffers - 1;
          thread_buffers = l.thread_buffers ++ p ∷ [];
        })
        ps in
    if ltb 0 l.empty_buffers then queued else none

unfoldable pub write : Settings → Listener → List ℕ → Option Listener
write settings l bytes =
    queue_pieces l
      (pieces settings.payload_size (count_pieces settings.payload_size (length bytes)) bytes)

-- CO_RSP_MERGE_WRITES: the payload, what is left of the queue, and how many buffers became empty.
pub record Merged : Type 0 where
  pub payload : List ℕ
  pub queue : List (List ℕ)
  pub freed : ℕ

unfoldable pub merge : ℕ → List ℕ → List (List ℕ) → Merged
merge size p [] = record { payload = p; queue = []; freed = 0 }
merge size p (p2 ∷ q) =
    let rest = merge size (p ++ p2) q in
    if ltb (length p) size && leb (length p + length p2) size
    then record rest { freed = rest.freed + 1 }
    else record { payload = p; queue = p2 ∷ q; freed = 0 }

-- The buffers that _finishWriteQueue takes off the front of _writeBuffers, of which `size` stay.
abbrev pub finished : ℕ → List Data → List Data
finished size bs = take (length bs - size) bs

abbrev pub unfinished : ℕ → List Data → List Data
unfinished size bs = drop (length bs - size) bs

-- The child connection of the writer to itself gets the buffers. When it has no free buffer, the
-- writer waits for the application to give one back, which is then taken.
unfoldable pub self_receive : Child → List Data → Child
self_receive c bs =
    let sequence = (c.sequence + length bs) % u16_mod in
    record c {
      app_buffers = c.app_buffers ++ bs;
      free_buffers = c.free_buffers - length bs;
      sequence = sequence;
      event = c.event || ltb 0 (length bs);
      acked = sub16 sequence 1;
    }

-- _finishWriteQueue; none where the source's assertion that there is a child for itself fails.
unfoldable pub finish_write_queue : Listener → ℕ → Option Listener
finish_write_queue l sequence = elim (find_connection l.id l.children) [
  | none ↦ none
  | some c ↦
      let size = sub16 l.sequence (sequence + 1) in
      let done = finished size l.write_buffers in
      some (record l {
        children = put_connection (self_receive c done) l.children;
        write_buffers = unfinished size l.write_buffers;
        empty_buffers = l.empty_buffers + length done;
        timeouts = 0;
      })
]

unfoldable pub send_packet : Listener → Data → Listener
send_packet l d = record l {
  sequence = (l.sequence + 1) % u16_mod;
  timeouts = 0;
  write_buffers = l.write_buffers ++ d ∷ [];
  sent = l.sent ++ data_packet d ∷ [];
}

unfoldable pub write_data : Settings → Listener → Option Listener
write_data settings l = elim l.thread_buffers [
  | [] ↦ some l
  | p ∷ q ↦
      let m = merge settings.payload_size p q in
      let d : Data = record { writer_id = l.id; sequence = l.sequence; payload = m.payload } in
      let s =
        send_packet
          (record l { thread_buffers = m.queue; empty_buffers = l.empty_buffers + m.freed }) d in
      if length s.children == 1 then finish_write_queue s (sub16 s.sequence 1) else some s
]

-- The loop of _handleAck: the least acknowledged number.
unfoldable pub least_acked : Settings → ℕ → ℕ → List Child → ℕ
least_acked settings id acked [] = acked
least_acked settings id acked (c ∷ cs) =
    least_acked settings id
      (if not (c.id == id) && ltb settings.num_buffers (sub16 c.acked acked)
        then c.acked
        else acked)
      cs

abbrev pub is_late : Settings → Child → ℕ → Bool
is_late settings c sequence = leb sequence c.acked && leb (c.acked - sequence) settings.num_buffers

-- The buffers that all readers have acknowledged are finished.
unfoldable pub advance : Settings → Listener → ℕ → Option Listener
advance settings l sequence = elim (find_connection l.id l.children) [
  | none ↦ none
  | some own ↦
      let acked = least_acked settings l.id sequence l.children in
      if leb (sub16 acked own.acked) settings.num_buffers
      then finish_write_queue l acked
      else some l
]

-- _handleAck; none is its result false, for an unknown reader.
unfoldable pub handle_ack : Settings → Listener → ℕ → ℕ → ℕ → Option Listener
handle_ack settings l reader_id writer_id sequence =
    if not (writer_id == l.id) then some l else elim (find_connection reader_id l.children) [
      | none ↦ none
      | some c ↦
          if is_late settings c sequence
          then some l
          else advance settings
              (record l {
                children = put_connection (record c { acked = sequence }) l.children;
                timeouts = 0;
              })
              sequence
    ]
