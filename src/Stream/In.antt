-- ===== src/Stream/In.antt =====
-- co/dataIStream.cpp and the buffers of co/objectDataIStream.cpp: reading values out of packets.
use mathlib.Core.Option
use collage.Prelude.{
  ℕ, Option, none, some, List, [], ◌∷◌, map, ltb, if◌then◌else◌, length, take, drop,
}
use collage.Stream.Out.{Packet}
use collage.Stream.Out.Sends.{bytes_of}

-- `buffers` are the packets not yet used, decompressed; `input` is what is left of the current one
-- behind its read position.
pub record IStream : Type 0 where
  pub buffers : List (List ℕ)
  pub input : List ℕ

-- ObjectDataIStream::getNextBuffer: empty commands are skipped.
unfoldable pub next_buffer : List (List ℕ) → Option IStream
next_buffer [] = none
next_buffer ([] ∷ bs) = next_buffer bs
next_buffer ((x ∷ b) ∷ bs) = some (record { buffers = bs; input = x ∷ b })

-- _checkBuffer
unfoldable pub check_buffer : IStream → Option IStream
unfolding next_buffer
check_buffer s = elim s.input [ [] ↦ next_buffer s.buffers | _ ∷ _ ↦ some s ]

-- The end of _read: a value does not span two buffers. `none` is the logged error, at which nothing
-- is read.
unfoldable pub read_input : ℕ → IStream → Option (List ℕ × IStream)
read_input n s =
    if ltb (length s.input) n
    then none
    else some (take n s.input, record s { input = drop n s.input })

unfoldable pub read : ℕ → IStream → Option (List ℕ × IStream)
unfolding check_buffer read_input
read n s = Option.bind (check_buffer s) (read_input n)

-- Values of the given sizes, one after the other.
unfoldable pub read_all : List ℕ → IStream → Option (List (List ℕ))
unfolding read
read_all [] s = some []
read_all (n ∷ ns) s = elim (read n s) [
  | none ↦ none
  | some (d, rest) ↦ Option.map (◌∷◌ d) (read_all ns rest)
]

-- The stream of the packets that have arrived, in order.
unfoldable pub receive : (List (List ℕ) → List ℕ) → List Packet → IStream
receive unpack ps = record { buffers = map (λ p. bytes_of unpack p.body) ps; input = [] }
