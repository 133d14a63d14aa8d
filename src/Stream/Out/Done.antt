-- ===== src/Stream/Out/Done.antt =====
-- co/dataOStream.cpp: a stream from enable to disable.
use collage.Prelude.{
  ℕ, ◌-◌, ◌≤◌, ◌<◌, ◌≡◌, refl, ap, ◌∙◌, inl, inr, true, false, ◌&&◌, List, [], ◌∷◌, ◌++◌, map,
  append_assoc, append-nil, arith, ltb, ◌==◌, if◌then◌else◌, if_true, lt→ltb, Bool-cases, length,
  length-append, All, flatten, flatten-append, map-append,
}
use collage.Stream.Out.{
  CompressorState, uncompressed, partial, complete, Packet, Setup, OStream, same_state, compress,
  body_of, send_data, pending, flush, write, write_all, enable, finish, finish_counted, count_data,
  close_stream, disable,
}
use collage.Stream.Out.Sends.{
  bytes_of, Unpacks, bytes-compress, compress-sent, IsWriting, write_all-IsWriting,
  enable-IsWriting,
}

-- The writes `ds` are on the wire: whole and in order, in packets of which the last alone says so.
pub record IsSent (unpack : List (List ℕ) → List ℕ) (before : List Packet) (ds : List (List ℕ))
    (s : OStream) : Type 0 where
  pub packets : List Packet
  pub final : Packet
  pub groups : List (List (List ℕ))
  pub sent : s.sent ≡ before ++ (packets ++ final ∷ [])
  pub not_last : All (λ p. p.last ≡ false) packets
  pub final_last : final.last ≡ true
  pub bodies : map (λ p. bytes_of unpack p.body) (packets ++ final ∷ []) ≡ map flatten groups
  pub whole : flatten groups ≡ ds

abbrev final_state : OStream → CompressorState
final_state s = if s.buffer_start == 0 then complete else partial

module _ (setup : Setup) where
  abbrev final_packet : OStream → Packet
  final_packet s = record {
    body =
        body_of (compress setup (record s { state = uncompressed }) (pending s) (final_state s))
          (pending s);
    last = true;
  }

  -- The shortcut of disable is never taken: flush resets the state that it tests.
  finish-sent :
      (s : OStream) → s.state ≡ uncompressed → (finish setup s).sent ≡ s.sent ++ final_packet s ∷ []
  unfolding finish send_data
  finish-sent s h = elim (Bool-cases ((length (pending s) == 0) && same_state s.state partial)) [
    | inl shortcut ↦ absurd (ground arith)
    | inr regular ↦
        simp regular
          (rw (compress-sent setup (record s { state = uncompressed }) (pending s) (final_state s)))
  ]

  finish_counted-sent :
      (s : OStream)
      → s.connected ≡ true
      → s.state ≡ uncompressed
      → (finish_counted setup s).sent
        ≡ (if s.data_sent then s.sent ++ final_packet s ∷ [] else s.sent)
  unfolding finish_counted
  finish_counted-sent s c h = ground (arith, finish-sent s h)

  pub disable-sent :
      (s : OStream)
      → s.enabled ≡ true
      → s.connected ≡ true
      → s.state ≡ uncompressed
      → (disable setup s).sent
        ≡ (if ltb 0 (length s.buffer) then s.sent ++ final_packet (count_data s) ∷ [] else s.sent)
  unfolding disable
  disable-sent s e c h =
      ap (λ t. t.sent) (if_true (close_stream (finish_counted setup (count_data s))) s e)
      ∙ finish_counted-sent (count_data s) c h

write-length :
    (setup : Setup) (s : OStream) (d : List ℕ) → length d ≤ length (write setup s d).buffer
unfolding write
write-length setup s d =
    let room =
      if ltb setup.object_buffer_size (length s.buffer - s.buffer_start)
      then flush setup s false
      else s in
    omega (arith, length-append room.buffer d)

module _ (setup : Setup) (unpack : List (List ℕ) → List ℕ) (law : Unpacks setup unpack) where
  disable-IsSent :
      (s : OStream) (before : List Packet) (ds : List (List ℕ))
      → IsWriting unpack before ds s
      → 0 < length s.buffer
      → IsSent unpack before ds (disable setup s)
  disable-IsSent s before ds w h = record {
    packets = w.packets;
    final = final_packet setup (count_data s);
    groups = w.groups ++ w.current ∷ [];
    sent =
        disable-sent setup s w.enabled w.connected w.state
        ∙ if_true _ _ (lt→ltb 0 (length s.buffer) h)
        ∙ rw (w.sent, append_assoc);
    not_last = w.not_last;
    final_last = refl;
    bodies = rw (
      map-append (λ p. bytes_of unpack p.body) w.packets (final_packet setup (count_data s) ∷ []),
      map-append flatten w.groups (w.current ∷ []),
      w.bodies,
      bytes-compress setup unpack law (record (count_data s) { state = uncompressed }) (pending s)
          (final_state s) refl,
      w.unsent,
    );
    whole =
        flatten-append w.groups (w.current ∷ [])
        ∙ ap (λ l. flatten w.groups ++ l) (append-nil w.current)
        ∙ w.whole;
  }

  write_all-append :
      (s : OStream) (ds es : List (List ℕ))
      → write_all setup s (ds ++ es) ≡ write_all setup (write_all setup s ds) es
  unfolding write_all
  write_all-append s [] es = refl
  write_all-append s (d ∷ ds) es = write_all-append (write setup s d) ds es

  last_write-length :
      (s : OStream) (ds : List (List ℕ)) (d : List ℕ)
      → length d ≤ length (write_all setup s (ds ++ d ∷ [])).buffer
  unfolding write_all
  last_write-length s ds d = rw (write_all-append s ds (d ∷ [])) (write-length setup _ d)

  -- From enable to disable, on a stream with receivers, with a last write that is not empty: what was
  -- written goes out in packets, each of which holds whole writes; in order, all of them, and the
  -- last packet alone is marked as the last.
  pub stream-IsSent :
      (s : OStream) (ds : List (List ℕ)) (d : List ℕ)
      → s.connected ≡ true
      → 0 < length d
      → IsSent unpack s.sent
          (ds ++ d ∷ [])
          (disable setup (write_all setup (enable s) (ds ++ d ∷ [])))
  stream-IsSent s ds d c h =
      disable-IsSent (write_all setup (enable s) (ds ++ d ∷ [])) s.sent (ds ++ d ∷ [])
        (write_all-IsWriting setup unpack law (enable s) s.sent [] (ds ++ d ∷ [])
          (enable-IsWriting setup unpack law s c))
        (omega (arith, last_write-length (enable s) ds d))
