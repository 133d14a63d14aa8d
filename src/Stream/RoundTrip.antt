-- ===== src/Stream/RoundTrip.antt =====
-- co/dataOStream.cpp with co/dataIStream.cpp: reading what was written.
use mathlib.Core.Option
use collage.Prelude.{
  ℕ, ◌<◌, ◌≡◌, refl, ◌∙◌, true, false, some, List, [], ◌∷◌, ◌++◌, map, arith, ltb, length,
  length-append, take, drop, All, flatten,
}
use collage.Stream.Out.{Packet, Setup, OStream, write_all, enable, disable}
use collage.Stream.Out.Sends.{Unpacks}
use collage.Stream.Out.Done.{IsSent, stream-IsSent}
use collage.Stream.In.{read, read_all, receive}

take-append_length : (d r : List ℕ) → take (length d) (d ++ r) ≡ d
take-append_length [] r = refl
take-append_length (x ∷ d) r = rw (take-append_length d r)

drop-append_length : (d r : List ℕ) → drop (length d) (d ++ r) ≡ r
drop-append_length [] r = refl
drop-append_length (x ∷ d) r = drop-append_length d r

-- A buffer that is next is as good as one that is current.
read_next :
    (n : ℕ) (b : List ℕ) (bs : List (List ℕ))
    → read n (record { buffers = b ∷ bs; input = [] }) ≡ read n (record { buffers = bs; input = b })
unfolding read
read_next n [] bs = refl
read_next n (x ∷ b) bs = refl

read_all_next :
    (ns : List ℕ) (b : List ℕ) (bs : List (List ℕ))
    → read_all ns (record { buffers = b ∷ bs; input = [] })
      ≡ read_all ns (record { buffers = bs; input = b })
unfolding read_all
read_all_next [] b bs = refl
read_all_next (n ∷ ns) b bs = rw (read_next n b bs, read_all)

read_one :
    (d r : List ℕ) (bs : List (List ℕ))
    → 0 < length d
    → read (length d) (record { buffers = bs; input = d ++ r })
      ≡ some (d, record { buffers = bs; input = r })
unfolding read Option.bind
read_one [] r bs h = elim h [ ]
read_one (x ∷ d) r bs h =
    let enough : ltb (length (x ∷ d ++ r)) (length (x ∷ d)) ≡ false =
      ground (arith, length-append d r) in
    rw (enough, take-append_length d r, drop-append_length d r)

abbrev pub NotEmpty : List ℕ → Type 0
NotEmpty d = 0 < length d

read_groups :
    (g : List (List ℕ)) (gs : List (List (List ℕ)))
    → All NotEmpty (g ++ flatten gs)
    → read_all
        (map length (g ++ flatten gs))
        (record { buffers = map flatten gs; input = flatten g })
      ≡ some (g ++ flatten gs)
unfolding read_all
read_groups [] [] h = refl
read_groups [] (g ∷ gs) h =
    read_all_next (map length (g ++ flatten gs)) (flatten g) (map flatten gs) ∙ read_groups g gs h
read_groups (d ∷ g) gs h =
    rw (read_one d (flatten g) (map flatten gs) h.0, read_all) (rw (read_groups g gs h.1))

-- What is written to a stream with receivers, from enable to disable, no write empty, is read back
-- from the packets it sends, value by value, if the decompressor undoes the compressor.
pub read_all-stream :
    (setup : Setup) (unpack : List (List ℕ) → List ℕ) (law : Unpacks setup unpack) (s : OStream)
    (ds : List (List ℕ)) (d : List ℕ)
    → s.connected ≡ true
    → All NotEmpty (ds ++ d ∷ [])
    → (ps : List Packet) × ((disable setup (write_all setup (enable s) (ds ++ d ∷ []))).sent
        ≡ s.sent ++ ps)
      × (read_all (map length (ds ++ d ∷ [])) (receive unpack ps) ≡ some (ds ++ d ∷ []))
unfolding receive
read_all-stream setup unpack law s ds d c h = (done.packets ++ done.final ∷ [], done.sent, read)
  where
    All-last : (es : List (List ℕ)) → All NotEmpty (es ++ d ∷ []) → 0 < length d
    All-last [] k = k.0
    All-last (e ∷ es) k = All-last es k.1

    done :
        IsSent unpack s.sent
          (ds ++ d ∷ [])
          (disable setup (write_all setup (enable s) (ds ++ d ∷ [])))
    done = stream-IsSent setup unpack law s ds d c (All-last ds h)

    read :
        read_all (map length (ds ++ d ∷ [])) (receive unpack (done.packets ++ done.final ∷ []))
        ≡ some (ds ++ d ∷ [])
    read = rw (done.bodies, ← done.whole) (read_groups [] done.groups (rw done.whole h))
