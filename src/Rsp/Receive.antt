-- ===== src/Rsp/Receive.antt =====
-- co/rspConnection.cpp: _handleData, _newDataBuffer and _pushDataBuffer.
pub mod InOrder
pub mod Posted
pub mod Held
pub mod Complete
use collage.Prelude.{
  ℕ, zero, suc, ◌+◌, ◌-◌, ◌%◌, Bool, true, false, ◌&&◌, ◌||◌, Option, none, some, List, [], ◌∷◌,
  ◌++◌, ltb, ◌==◌, if◌then◌else◌, length,
}
use collage.Rsp.State.{
  Data, Nack, Datagram, ack, nack, Settings, Child, Listener, find_connection, put_connection,
  u16_mod, u16_max, sub16,
}

-- A child connection, and what its parent has sent meanwhile.
pub record Received : Type 0 where
  pub child : Child
  pub sent : List Datagram

-- _newDataBuffer: a free buffer is taken; without one the event is set if there is data to read.
unfoldable pub new_data_buffer : Child → Option Child
new_data_buffer c =
    if ltb 0 c.free_buffers then some (record c { free_buffers = c.free_buffers - 1 }) else none

unfoldable pub no_data_buffer : Child → Child
no_data_buffer c = record c { event = c.event || ltb 0 (length c.app_buffers) }

-- Slots of _recvBuffers: `slot i` is what [ i ] holds, and nothing where the deque ends.
abbrev pub slot : ℕ → List (Option Data) → Option Data
slot i [] = none
slot zero (o ∷ q) = o
slot (suc i) (o ∷ q) = slot i q

abbrev pub is_filled : Option Data → Bool
is_filled none = false
is_filled (some d) = true

-- resize to i + 1 if it is smaller, and [ i ] = newBuffer
abbrev pub put_slot : ℕ → Data → List (Option Data) → List (Option Data)
put_slot zero d [] = some d ∷ []
put_slot zero d (o ∷ q) = some d ∷ q
put_slot (suc i) d [] = none ∷ put_slot i d []
put_slot (suc i) d (o ∷ q) = o ∷ put_slot i d q

-- The update for the new _sequence.
abbrev pub drop_hole : List (Option Data) → List (Option Data)
drop_hole (none ∷ q) = q
drop_hole q = q

-- The test that ignores a repetition for another reader.
unfoldable pub is_outside : ℕ → ℕ → ℕ → Bool
is_outside num_buffers expected sequence =
    (ltb sequence expected && ltb num_buffers ((u16_max - expected) + sequence))
    || (ltb expected sequence && ltb num_buffers (sequence - expected))

-- The loop of the early nack: the last filled slot below n.
abbrev pub last_filled : ℕ → List (Option Data) → Option ℕ
last_filled zero q = none
last_filled (suc i) q = if is_filled (slot i q) then some i else last_filled i q

abbrev pub early_first : ℕ → Option ℕ → ℕ
early_first expected none = expected
early_first expected (some i) = (expected + i) % u16_mod

abbrev pub clip_nack : Nack → Nack
clip_nack n = if ltb n.last n.first then record n { last = u16_max } else n

-- The early nack for a packet that stands `size` after the expected one; none if the packet before
-- it has been received.
unfoldable pub early_nack : ℕ → ℕ → ℕ → List (Option Data) → Option Nack
early_nack expected sequence size q =
    if ltb 2 size
    then if is_filled (slot (size - 2) q)
      then none
      else some (
          clip_nack (record {
            first = early_first expected (last_filled (size - 2) q);
            last = sub16 sequence 1;
          }))
    else some (clip_nack (record { first = expected; last = sub16 sequence 1 }))

abbrev pub nack_list : ℕ → Option Nack → List Datagram
nack_list writer_id none = []
nack_list writer_id (some n) = nack writer_id (n ∷ []) ∷ []

-- A packet that stands `size` after the expected one.
unfoldable pub receive_early : ℕ → Child → Data → Received
receive_early size c d =
    if is_filled (slot (size - 1) c.recv_buffers)
    then record { child = c; sent = [] }
    else elim (new_data_buffer c) [
      | none ↦ record { child = no_data_buffer c; sent = [] }
      | some e ↦
          let q = put_slot (size - 1) d e.recv_buffers in
          record {
            child = record e { recv_buffers = q };
            sent = nack_list c.id (early_nack c.sequence d.sequence size q);
          }
    ]

module _ (settings : Settings) (parent_id : ℕ) where
  -- _pushDataBuffer
  unfoldable pub push_data_buffer : Received → Data → Received
  push_data_buffer r d = record {
    child = record r.child {
      sequence = (r.child.sequence + 1) % u16_mod;
      app_buffers = r.child.app_buffers ++ d ∷ [];
    };
    sent =
        if ((r.child.sequence + parent_id) % settings.ack_freq) == 0
        then r.sent ++ ack r.child.id r.child.sequence ∷ []
        else r.sent;
  }

  -- The loop that enqueues the ready pending data.
  unfoldable pub push_pending : List (Option Data) → Received → Received
  push_pending [] r = record r { child = record r.child { recv_buffers = [] } }
  push_pending (none ∷ q) r = record r { child = record r.child { recv_buffers = none ∷ q } }
  push_pending (some d ∷ q) r = push_pending q (push_data_buffer r d)

  unfoldable pub receive_in_order : Child → Data → Received
  receive_in_order c d =
      let r = push_pending c.recv_buffers (push_data_buffer (record { child = c; sent = [] }) d) in
      record r {
        child = record r.child { recv_buffers = drop_hole r.child.recv_buffers; event = true };
      }

  unfoldable pub receive_data : Child → Data → Received
  receive_data c d =
      if c.sequence == d.sequence
      then elim (new_data_buffer c) [
        | none ↦ record { child = no_data_buffer c; sent = [] }
        | some e ↦ receive_in_order e d
      ]
      else if is_outside settings.num_buffers c.sequence d.sequence
      then record { child = c; sent = [] }
      else receive_early (sub16 d.sequence c.sequence) c d

-- _handleData; none is its result false, for an unknown writer.
unfoldable pub handle_data : Settings → Listener → Data → Option Listener
handle_data settings l d = elim (find_connection d.writer_id l.children) [
  | none ↦ none
  | some c ↦
      let r = receive_data settings l.id c d in
      some (record l { children = put_connection r.child l.children; sent = l.sent ++ r.sent })
]
