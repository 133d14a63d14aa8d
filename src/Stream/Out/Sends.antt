-- ===== src/Stream/Out/Sends.antt =====
-- co/dataOStream.cpp: what the packets of a stream hold, taken together.
use collage.Prelude.{
  ℕ, zero, suc, ◌-◌, ◌≤◌, ◌≡◌, refl, sym, ap, ◌∙◌, subst, inl, inr, Bool, true, false, List, [],
  ◌∷◌, ◌++◌, map, append_assoc, append-nil, arith, ltb, Bool-cases, length, length-append, drop,
  flatten, flatten-append, map-append, All, All-append,
}
use collage.Stream.Out.{
  CompressorState, uncompressed, partial, Body, raw, packed, Packet, Setup, OStream, compress,
  body_of, send_data, send_pending, reset_buffer, pending, flush, write, write_all, enable,
}

module _ (unpack : List (List ℕ) → List ℕ) where
  -- The bytes that a receiver gets out of a body.
  abbrev pub bytes_of : Body → List ℕ
  bytes_of (raw d) = d
  bytes_of (packed cs) = unpack cs

-- The decompressor undoes the compressor.
abbrev pub Unpacks : Setup → (List (List ℕ) → List ℕ) → Type 0
Unpacks setup unpack = (d : List ℕ) → unpack (setup.pack d) ≡ d

pub drop-length : (d : List ℕ) → drop (length d) d ≡ []
drop-length [] = refl
drop-length (x ∷ d) = drop-length d

drop-append : (n : ℕ) (xs ys : List ℕ) → n ≤ length xs → drop n (xs ++ ys) ≡ drop n xs ++ ys
drop-append zero xs ys h = refl
drop-append (suc n) [] ys h = absurd (omega arith)
drop-append (suc n) (x ∷ xs) ys h = drop-append n xs ys (omega arith)

module _ (setup : Setup) (unpack : List (List ℕ) → List ℕ) (law : Unpacks setup unpack) where
  -- A fresh compression is sent as bytes that unpack to the source.
  pub bytes-compress :
      (s : OStream) (src : List ℕ) (target : CompressorState)
      → s.state ≡ uncompressed
      → bytes_of unpack (body_of (compress setup s src target) src) ≡ src
  unfolding compress body_of
  bytes-compress s src target h = ground (arith, law src)

-- What compression leaves alone: the buffer too, unless it is of the whole stream.
pub record Keeps (s t : OStream) : Type 0 where
  pub buffer : t.buffer ≡ s.buffer
  pub buffer_start : t.buffer_start ≡ s.buffer_start
  pub data_size : t.data_size ≡ s.data_size
  pub connected : t.connected ≡ s.connected
  pub enabled : t.enabled ≡ s.enabled
  pub save : t.save ≡ s.save
  pub sent : t.sent ≡ s.sent

compress_partial-Keeps :
    (setup : Setup) (s : OStream) (src : List ℕ) → Keeps s (compress setup s src partial)
unfolding compress
compress_partial-Keeps setup s src = ground arith

pub compress-sent :
    (setup : Setup) (s : OStream) (src : List ℕ) (t : CompressorState)
    → (compress setup s src t).sent ≡ s.sent
unfolding compress
compress-sent setup s src t = ground arith

-- In the middle of writing `ds`: of the packets since `before` none is the last one, each holds some
-- of the writes whole, in order, and the buffer holds the rest.
pub record IsWriting (unpack : List (List ℕ) → List ℕ) (before : List Packet) (ds : List (List ℕ))
    (s : OStream) : Type 0 where
  pub state : s.state ≡ uncompressed
  pub connected : s.connected ≡ true
  pub enabled : s.enabled ≡ true
  pub start : s.buffer_start ≤ length s.buffer
  pub packets : List Packet
  pub sent : s.sent ≡ before ++ packets
  pub not_last : All (λ p. p.last ≡ false) packets
  pub groups : List (List (List ℕ))
  pub current : List (List ℕ)
  pub bodies : map (λ p. bytes_of unpack p.body) packets ≡ map flatten groups
  pub unsent : pending s ≡ flatten current
  pub whole : flatten groups ++ current ≡ ds
  pub saved : s.save ≡ true → s.buffer ≡ flatten ds

module _ (setup : Setup) (unpack : List (List ℕ) → List ℕ) (law : Unpacks setup unpack) where
  -- The packet that flush sends of the pending bytes.
  abbrev pending_packet : OStream → Bool → Packet
  pending_packet s last = record {
    body =
        body_of (compress setup (record s { state = uncompressed }) (pending s) partial)
          (pending s);
    last = last;
  }

  send_pending-sent :
      (s : OStream) (last : Bool)
      → (send_pending setup s last).sent ≡ s.sent ++ pending_packet s last ∷ []
  unfolding send_pending send_data
  send_pending-sent s last =
      rw (compress-sent setup (record s { state = uncompressed }) (pending s) partial)

  pending_packet-bytes :
      (s : OStream) (last : Bool) → bytes_of unpack (pending_packet s last).body ≡ pending s
  pending_packet-bytes s last =
      bytes-compress setup unpack law (record s { state = uncompressed }) (pending s) partial refl

  pub send_pending-Keeps :
      (s : OStream) (last : Bool)
      → let t = send_pending setup s last in
        (t.buffer ≡ s.buffer)
        × (t.buffer_start ≡ s.buffer_start)
        × (t.connected ≡ s.connected)
        × (t.enabled ≡ s.enabled)
        × (t.save ≡ s.save)
  unfolding send_pending send_data
  send_pending-Keeps s last =
      let k = compress_partial-Keeps setup (record s { state = uncompressed }) (pending s) in
      (k.buffer, k.buffer_start, k.connected, k.enabled, k.save)

  pub flush-connected :
      (s : OStream) (last : Bool)
      → s.connected ≡ true
      → flush setup s last ≡ reset_buffer (record (send_pending setup s last) { data_sent = true })
  unfolding flush
  flush-connected s last c = simp c

  -- What a reset buffer needs of the stream before.
  reset_fields :
      (t : OStream)
      → let r = reset_buffer t in
        (r.state ≡ uncompressed)
        × (r.connected ≡ t.connected)
        × (r.enabled ≡ t.enabled)
        × (r.buffer_start ≤ length r.buffer)
        × (r.sent ≡ t.sent)
        × (pending r ≡ [])
        × (r.save ≡ t.save)
        × (r.save ≡ true → r.buffer ≡ t.buffer)
  unfolding reset_buffer
  reset_fields t = elim (Bool-cases t.save) [
    | inl saving ↦
        simp saving (refl, refl, refl, omega arith, refl, drop-length t.buffer, refl, λ _. refl)
    | inr dropping ↦
        simp dropping (refl, refl, refl, omega arith, refl, refl, refl, λ u. absurd (ground arith))
  ]

  pub flush-IsWriting :
      (s : OStream) (before : List Packet) (ds : List (List ℕ))
      → IsWriting unpack before ds s
      → IsWriting unpack before ds (flush setup s false)
  flush-IsWriting s before ds w =
      let k = send_pending-Keeps s false in
      let (state, connected, enabled, start, sent, empty, save, kept) =
        reset_fields (record (send_pending setup s false) { data_sent = true }) in
      rw (flush-connected s false w.connected) (record {
        state = state;
        connected = connected ∙ k.2 ∙ w.connected;
        enabled = enabled ∙ k.3 ∙ w.enabled;
        start = start;
        packets = w.packets ++ pending_packet s false ∷ [];
        sent = sent ∙ send_pending-sent s false ∙ rw (w.sent, append_assoc);
        not_last = All-append _ w.packets _ w.not_last (refl, tt);
        groups = w.groups ++ w.current ∷ [];
        current = [];
        bodies = rw (
          map-append (λ p. bytes_of unpack p.body) w.packets (pending_packet s false ∷ []),
          map-append flatten w.groups (w.current ∷ []),
          w.bodies,
          pending_packet-bytes s false,
          w.unsent,
        );
        unsent = empty;
        whole =
            append-nil (flatten (w.groups ++ w.current ∷ []))
            ∙ flatten-append w.groups (w.current ∷ [])
            ∙ ap (λ l. flatten w.groups ++ l) (append-nil w.current)
            ∙ w.whole;
        saved = λ u. kept u ∙ k.0 ∙ w.saved (sym k.4 ∙ sym save ∙ u);
      })

  append-IsWriting :
      (s : OStream) (before : List Packet) (ds : List (List ℕ)) (d : List ℕ)
      → IsWriting unpack before ds s
      → IsWriting unpack before (ds ++ d ∷ []) (record s { buffer = s.buffer ++ d })
  append-IsWriting s before ds d w = record {
    state = w.state;
    connected = w.connected;
    enabled = w.enabled;
    start = rw (length-append s.buffer d) (omega (arith, w.start));
    packets = w.packets;
    sent = w.sent;
    not_last = w.not_last;
    groups = w.groups;
    current = w.current ++ d ∷ [];
    bodies = w.bodies;
    unsent =
        rw (drop-append s.buffer_start s.buffer d w.start, w.unsent)
          (rw (flatten-append w.current (d ∷ []), append-nil));
    whole = rw (← append_assoc) (ap (λ l. l ++ d ∷ []) w.whole);
    saved = λ u. rw (w.saved u, flatten-append ds (d ∷ []), append-nil);
  }

  pub write-IsWriting :
      (s : OStream) (before : List Packet) (ds : List (List ℕ)) (d : List ℕ)
      → IsWriting unpack before ds s
      → IsWriting unpack before (ds ++ d ∷ []) (write setup s d)
  unfolding write
  write-IsWriting s before ds d w =
      elim (Bool-cases (ltb setup.object_buffer_size (length s.buffer - s.buffer_start))) [
        | inl full ↦
            simp full
              (append-IsWriting (flush setup s false) before ds d (flush-IsWriting s before ds w))
        | inr fits ↦ simp fits (append-IsWriting s before ds d w)
      ]

  pub write_all-IsWriting :
      (s : OStream) (before : List Packet) (ds es : List (List ℕ))
      → IsWriting unpack before ds s
      → IsWriting unpack before (ds ++ es) (write_all setup s es)
  unfolding write_all
  write_all-IsWriting s before ds [] w = rw (append-nil) w
  write_all-IsWriting s before ds (e ∷ es) w =
      subst (λ l. IsWriting unpack before l (write_all setup (write setup s e) es))
        (append_assoc ds (e ∷ []) es)
        (write_all-IsWriting (write setup s e) before (ds ++ e ∷ []) es
          (write-IsWriting s before ds e w))

  pub enable-IsWriting : (s : OStream) → s.connected ≡ true → IsWriting unpack s.sent [] (enable s)
  unfolding enable
  enable-IsWriting s c = record {
    state = refl;
    connected = c;
    enabled = refl;
    start = omega arith;
    packets = [];
    sent = sym (append-nil s.sent);
    not_last = tt;
    groups = [];
    current = [];
    bodies = refl;
    unsent = refl;
    whole = refl;
    saved = λ _. refl;
  }
