-- ===== src/Stream/Out.antt =====
-- co/dataOStream.cpp: buffering, compression and sending of what an object writes.
-- Without CO_AGGRESSIVE_CACHING, which no build file defines: the buffer is cleared where the
-- source clears it.
pub mod Sends
pub mod Done
pub mod Unfinished
use collage.Prelude.{
  ℕ, ◌+◌, ◌-◌, Bool, true, false, not, ◌&&◌, ◌||◌, List, [], ◌∷◌, ◌++◌, ltb, leb, ◌==◌,
  if◌then◌else◌, length, take, drop,
}

pub data CompressorState : Type 0 where
  uncompressed partial complete uncompressible : CompressorState

-- What sendBody puts on a connection: the bytes, or the compressor's chunks.
pub data Body : Type 0 where
  raw : List ℕ → Body
  packed : List (List ℕ) → Body

pub record Packet : Type 0 where
  pub body : Body
  pub last : Bool

-- pression::Compressor and the global attributes that the stream reads. `is_good` is isGood() and
-- `pack` the chunks of a compression.
pub record Setup : Type 0 where
  pub is_good : Bool
  pub pack : List ℕ → List (List ℕ)
  pub compression_threshold : ℕ
  pub object_buffer_size : ℕ

-- detail::DataOStream; `sent` is what sendData was called with, oldest first.
pub record OStream : Type 0 where
  pub state : CompressorState
  pub buffer : List ℕ
  pub buffer_start : ℕ
  pub data_size : ℕ
  pub result : List (List ℕ)
  pub connected : Bool
  pub enabled : Bool
  pub data_sent : Bool
  pub save : Bool
  pub sent : List Packet

abbrev pub same_state : CompressorState → CompressorState → Bool
same_state uncompressed uncompressed = true
same_state partial partial = true
same_state complete complete = true
same_state uncompressible uncompressible = true
same_state _ _ = false

-- CompressorResult::getSize
abbrev pub total_size : List (List ℕ) → ℕ
total_size [] = 0
total_size (c ∷ cs) = length c + total_size cs

-- sendBody: the source bytes unless the state says that the compressor's result is sent.
unfoldable pub body_of : OStream → List ℕ → Body
body_of s src =
    if same_state s.state uncompressed || same_state s.state uncompressible
    then raw src
    else packed s.result

unfoldable pub send_data : OStream → List ℕ → Bool → OStream
unfolding body_of
send_data s src last = record s {
  sent = s.sent ++ record { body = body_of s src; last = last } ∷ [];
}

unfoldable pub reset_buffer : OStream → OStream
reset_buffer s =
    if s.save
    then record s { state = uncompressed; buffer_start = length s.buffer }
    else record s { state = uncompressed; buffer_start = 0; buffer = [] }

-- What has been written and not sent.
abbrev pub pending : OStream → List ℕ
pending s = drop s.buffer_start s.buffer

-- _enable, on a stream whose connections are set up
unfoldable pub enable : OStream → OStream
enable s = record s {
  state = uncompressed;
  buffer_start = 0;
  data_sent = false;
  data_size = 0;
  enabled = true;
  buffer = [];
}

-- The first lines of disable, and its last.
abbrev pub count_data : OStream → OStream
count_data s = record s { data_size = length s.buffer; data_sent = ltb 0 (length s.buffer) }

abbrev pub close_stream : OStream → OStream
close_stream s = record s {
  buffer = if s.save then s.buffer else [];
  enabled = false;
  connected = false;
}

module _ (setup : Setup) where
  -- detail::DataOStream::compress after its early returns.
  unfoldable pub run_compressor : OStream → List ℕ → CompressorState → OStream
  run_compressor s src result =
      let chunks = setup.pack src in
      if leb (length src) (total_size chunks)
      then record s { state = uncompressible; result = chunks }
      else record s {
        state = result;
        result = chunks;
        buffer = if same_state result complete then [] else s.buffer;
      }

  unfoldable pub compress : OStream → List ℕ → CompressorState → OStream
  unfolding run_compressor
  compress s src result =
      if same_state s.state result || same_state s.state uncompressible
      then s
      else if not setup.is_good || leb (length src) setup.compression_threshold
      then record s { state = uncompressed }
      else run_compressor s src result

  -- The packet of flush, compressed on its own.
  unfoldable pub send_pending : OStream → Bool → OStream
  send_pending s last =
      send_data (compress (record s { state = uncompressed }) (pending s) partial) (pending s) last

  unfoldable pub flush : OStream → Bool → OStream
  flush s last =
      let flushed = if s.connected then send_pending s last else s in
      reset_buffer (record flushed { data_sent = true })

  -- _write
  unfoldable pub write : OStream → List ℕ → OStream
  write s bytes =
      let room =
        if ltb setup.object_buffer_size (length s.buffer - s.buffer_start)
        then flush s false
        else s in
      record room { buffer = room.buffer ++ bytes }

  unfoldable pub write_all : OStream → List (List ℕ) → OStream
  write_all s [] = s
  write_all s (d ∷ ds) = write_all (write s d) ds

  -- The last packet of disable: the shortcut for a state that flush has left, or another compression.
  unfoldable pub finish : OStream → OStream
  finish s =
      if (length (pending s) == 0) && same_state s.state partial
      then send_data (record s { state = complete; buffer = [] }) (pending s) true
      else send_data
          (compress (record s { state = uncompressed }) (pending s)
            (if s.buffer_start == 0 then complete else partial))
          (pending s) true

  unfoldable pub finish_counted : OStream → OStream
  finish_counted s = if s.data_sent && s.connected then finish s else s

  unfoldable pub disable : OStream → OStream
  disable s = if s.enabled then close_stream (finish_counted (count_data s)) else s

  -- _resend: all of a saved stream in one packet, to the connections set up before.
  unfoldable pub resend : OStream → OStream
  resend s = let src = take s.data_size s.buffer in send_data (compress s src complete) src true
