-- ===== src/Tests/Stream.antt =====
-- A stream that sends three packets, and one without a last packet.
use collage.Prelude.{
  ℕ, ◌-◌, ◌<◌, ◌≡◌, refl, true, false, some, List, [], ◌∷◌, ◌++◌, arith, length, All, flatten,
}
use collage.Stream.Out.{uncompressed, Packet, Setup, OStream, enable, write, write_all, disable}
use collage.Stream.Out.Sends.{IsWriting, enable-IsWriting, write_all-IsWriting}
use collage.Stream.Out.Done.{IsSent, stream-IsSent}
use collage.Stream.Out.Unfinished.{empty_write_unfinished}
use collage.Stream.In.{read_all, receive}
use collage.Stream.RoundTrip.{read_all-stream}

-- A parameter of the model: chunks of one byte each, which do not pay.
abbrev singles : List ℕ → List (List ℕ)
singles [] = []
singles (x ∷ xs) = (x ∷ []) ∷ singles xs

flatten-singles : (d : List ℕ) → flatten (singles d) ≡ d
flatten-singles [] = refl
flatten-singles (x ∷ d) = rw (flatten-singles d)

abbrev setup : Setup
setup = record { is_good = true; pack = singles; compression_threshold = 1; object_buffer_size = 2 }

abbrev connected_stream : OStream
connected_stream = record {
  state = uncompressed;
  buffer = [];
  buffer_start = 0;
  data_size = 0;
  result = [];
  connected = true;
  enabled = false;
  data_sent = false;
  save = false;
  sent = [];
}

abbrev writes : List (List ℕ)
writes = (1 ∷ 2 ∷ 3 ∷ []) ∷ (4 ∷ []) ∷ []

stream-IsSent_example :
    IsSent flatten []
      (writes ++ (5 ∷ []) ∷ [])
      (disable setup (write_all setup (enable connected_stream) (writes ++ (5 ∷ []) ∷ [])))
stream-IsSent_example =
    stream-IsSent setup flatten flatten-singles connected_stream writes (5 ∷ []) refl (omega arith)

read_all-stream_example :
    (ps : List Packet) × ((disable setup
        (write_all setup (enable connected_stream) (writes ++ (5 ∷ []) ∷ []))).sent
      ≡ [] ++ ps)
    × (read_all (3 ∷ 1 ∷ 1 ∷ []) (receive flatten ps) ≡ some (writes ++ (5 ∷ []) ∷ []))
read_all-stream_example =
    read_all-stream setup flatten flatten-singles connected_stream writes (5 ∷ []) refl
      (omega arith, (omega arith, (omega arith, tt)))

abbrev full_stream : OStream
full_stream = write_all setup (enable connected_stream) ((1 ∷ 2 ∷ 3 ∷ []) ∷ [])

full_stream-IsWriting : IsWriting flatten [] ((1 ∷ 2 ∷ 3 ∷ []) ∷ []) full_stream
full_stream-IsWriting =
    write_all-IsWriting setup flatten flatten-singles (enable connected_stream) [] []
      ((1 ∷ 2 ∷ 3 ∷ []) ∷ []) (enable-IsWriting setup flatten flatten-singles connected_stream refl)

full_stream-unsaved : full_stream.save ≡ false
unfolding write_all write enable
full_stream-unsaved = refl

full_stream-full : setup.object_buffer_size < length full_stream.buffer - full_stream.buffer_start
unfolding write_all write enable
full_stream-full = omega arith

empty_write_unfinished_example :
    (ps : List Packet) × ((disable setup (write setup full_stream [])).sent ≡ [] ++ ps)
    × All (λ p. p.last ≡ false) ps
empty_write_unfinished_example =
    empty_write_unfinished setup flatten flatten-singles full_stream [] ((1 ∷ 2 ∷ 3 ∷ []) ∷ [])
      full_stream-IsWriting full_stream-unsaved full_stream-full
