-- ===== src/Rsp/State.antt =====
-- co/rspConnection.h: the state of a listener and of its child connections, and the datagrams.
-- Sequence numbers are 16-bit words, whose wrap-around is written out.
use collage.Prelude.{ℕ, ◌+◌, ◌-◌, ◌%◌, Bool, Option, none, some, List, [], ◌∷◌, ◌==◌, if◌then◌else◌}

abbrev pub u16_mod : ℕ
u16_mod = 0x10000

abbrev pub u16_max : ℕ
u16_max = 0xffff

-- uint16_t( a - b )
abbrev pub sub16 : ℕ → ℕ → ℕ
sub16 a b = ((a + u16_mod) - b) % u16_mod

-- DatagramData and the bytes behind it
pub record Data : Type 0 where
  pub writer_id : ℕ
  pub sequence : ℕ
  pub payload : List ℕ

pub record Nack : Type 0 where
  pub first : ℕ
  pub last : ℕ

-- What a connection sends to the group.
pub data Datagram : Type 0 where
  data_packet : Data → Datagram
  ack : ℕ → ℕ → Datagram
  nack : ℕ → List Nack → Datagram
  hello : ℕ → ℕ → Datagram
  deny : ℕ → ℕ → Datagram
  hello_reply : ℕ → ℕ → Datagram
  count_node : ℕ → ℕ → Datagram

-- _numBuffers, _ackFreq and _payloadSize
pub record Settings : Type 0 where
  pub num_buffers : ℕ
  pub ack_freq : ℕ
  pub payload_size : ℕ

-- A child connection: it receives what the writer `id` sends. `free_buffers` is the size of
-- _threadBuffers; `app_buffers` is what has been posted to the application, oldest first.
pub record Child : Type 0 where
  pub id : ℕ
  pub sequence : ℕ
  pub acked : ℕ
  pub recv_buffers : List (Option Data)
  pub app_buffers : List Data
  pub free_buffers : ℕ
  pub event : Bool

-- A listening connection. `thread_buffers` is what the application has written and the thread has
-- not yet sent; `write_buffers` is what it has sent and not all readers have acknowledged.
pub record Listener : Type 0 where
  pub id : ℕ
  pub sequence : ℕ
  pub timeouts : ℕ
  pub children : List Child
  pub thread_buffers : List (List ℕ)
  pub empty_buffers : ℕ
  pub write_buffers : List Data
  pub repeat_queue : List Nack
  pub sent : List Datagram

-- _findConnection
abbrev pub find_connection : ℕ → List Child → Option Child
find_connection id [] = none
find_connection id (c ∷ cs) = if c.id == id then some c else find_connection id cs

-- What a handler does to the connection that it has found.
abbrev pub put_connection : Child → List Child → List Child
put_connection d [] = []
put_connection d (c ∷ cs) = if c.id == d.id then d ∷ cs else c ∷ put_connection d cs
