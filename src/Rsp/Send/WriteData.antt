-- ===== src/Rsp/Send/WriteData.antt =====
-- co/rspConnection.cpp: _writeData and the stream of a listener.
use collage.Prelude.{
  ℕ, ◌+◌, ◌≤◌, ◌<◌, ◌≡◌, refl, sym, ap, ◌∙◌, subst, ◌≢◌, ◌⊎◌, inl, inr, Option, some, List, [], ◌∷◌,
  ◌++◌, append_assoc, append-nil, arith, ◌==◌, if_true, if_false, Bool-cases, length, length-append,
  flatten,
}
use collage.Rsp.State.{Data, data_packet, Settings, Listener, u16_mod, sub16}
use collage.Rsp.Send.{merge, send_packet, write_data, finish_write_queue}
use collage.Rsp.Send.Merge.{merge-flatten, merge-length}
use collage.Rsp.Send.Acked.{last_of}
use collage.Rsp.Send.Finished.{IsWriter, finish-Finishes, finish-queue}
use collage.Rsp.Send.Packets.{
  stream_of, HasAcked-alone, same_stream, queue-cases, IsWriter-send_packet, IsWriter-taken,
  packet_of, packet_of-sequence, queue_of, write_data-steps, stream-send_packet,
}

none_left : (bs : List Data) → length bs ≡ 0 → bs ≡ []
none_left [] h = refl
none_left (b ∷ bs) h = absurd (omega (arith, h))

module _ (settings : Settings) (received : ℕ → ℕ) where
  -- What becomes of the sent packets: the listener keeps them, or finishes all of them as `done` if
  -- it has no child but its own.
  abbrev Passes : List Data → Listener → Option Listener → Type 0
  Passes old s result =
      (done : List Data) × (l' : Listener) × (result ≡ some l')
      × IsWriter settings received (old ++ done) l'
      × (l'.thread_buffers ≡ s.thread_buffers)
      × (l'.sent ≡ s.sent)
      × (done ++ l'.write_buffers ≡ s.write_buffers)
      × (((length s.children ≢ 1) × (done ≡ []))
          ⊎ ((length s.children ≡ 1) × (l'.write_buffers ≡ [])))

  Passes-kept :
      (old : List Data) (s : Listener)
      → IsWriter settings received old s
      → length s.children ≢ 1
      → Passes old s (some s)
  Passes-kept old s h more = (
    [],
    s,
    refl,
    subst (λ o. IsWriter settings received o s) (sym (append-nil old)) h,
    refl,
    refl,
    refl,
    inl (more, refl),
  )

  Passes-finished :
      (old : List Data) (s : Listener)
      → IsWriter settings received old s
      → settings.num_buffers < u16_mod
      → length s.children ≡ 1
      → Passes old s (finish_write_queue s (sub16 s.sequence 1))
  Passes-finished old s h buffers one =
      let n = length old + length s.write_buffers in
      let (c, found, own) = h.own in
      let (m, run, (done, whole, count, writer)) =
        finish-Finishes settings received s old n h buffers (omega arith) (omega arith)
          (HasAcked-alone received s.id n n s.children c one found) in
      let (queue, sent) = finish-queue s m (last_of n) c found run in
      (
        done,
        m,
        ap (finish_write_queue s) (ap (λ x. sub16 x 1) h.sequence) ∙ run,
        writer,
        queue,
        sent,
        sym whole,
        inr (
          one,
          none_left m.write_buffers
              (omega (arith, count, ap length whole, length-append done m.write_buffers)),
        ),
      )

  -- The listener has sent one more packet, of the next number, with the first bytes that wait, of at
  -- least one queued buffer. It writes the same stream, of which `done` more packets are finished:
  -- none if it has a reader, and all of them if it has none.
  abbrev pub Continues : List Data → Listener → Option Listener → Type 0
  Continues old l result =
      (d : Data) × (done : List Data) × (l' : Listener) × (result ≡ some l')
      × IsWriter settings received (old ++ done) l'
      × (stream_of (old ++ done) l' ≡ stream_of old l)
      × (l'.sent ≡ l.sent ++ data_packet d ∷ [])
      × (d.sequence ≡ l.sequence)
      × (flatten l.thread_buffers ≡ d.payload ++ flatten l'.thread_buffers)
      × (length l'.thread_buffers < length l.thread_buffers)
      × (done ++ l'.write_buffers ≡ l.write_buffers ++ d ∷ [])
      × (((length l.children ≢ 1) × (done ≡ []))
          ⊎ ((length l.children ≡ 1) × (l'.write_buffers ≡ [])))

  Continues-Passes :
      (old : List Data) (l : Listener) (p : List ℕ) (q : List (List ℕ)) (result : Option Listener)
      → l.thread_buffers ≡ p ∷ q
      → Passes old (send_packet (queue_of settings l p q) (packet_of settings l p q)) result
      → Continues old l result
  unfolding send_packet packet_of
  Continues-Passes old l p q result queue (done, l', run, writer, rest, sent, kept, alone) =
      let m = merge settings.payload_size p q in
      (
        packet_of settings l p q,
        done,
        l',
        run,
        writer,
        same_stream (append_assoc old done l'.write_buffers ∙ ap (λ b. old ++ b) kept) rest
            ∙ stream-send_packet settings l old p q queue,
        sent,
        refl,
        ap flatten queue
            ∙ merge-flatten settings.payload_size p q
            ∙ ap (λ t. m.payload ++ flatten t) (sym rest),
        omega (arith, ap length queue, ap length rest, merge-length settings.payload_size p q),
        kept,
        alone,
      )

  write_data-Passes :
      (l : Listener) (old : List Data) (p : List ℕ) (q : List (List ℕ))
      → IsWriter settings received old l
      → settings.num_buffers < u16_mod
      → length l.thread_buffers + length l.write_buffers ≤ settings.num_buffers
      → l.thread_buffers ≡ p ∷ q
      → Passes old
          (send_packet (queue_of settings l p q) (packet_of settings l p q))
          (write_data settings l)
  write_data-Passes l old p q h buffers room queue =
      let s = send_packet (queue_of settings l p q) (packet_of settings l p q) in
      let free : length l.write_buffers < settings.num_buffers =
        omega (arith, room, ap length queue) in
      let writer =
        IsWriter-send_packet settings received (queue_of settings l p q) old
          (packet_of settings l p q) (IsWriter-taken settings received l old _ _ h) free
          (packet_of-sequence settings l p q) in
      subst (Passes old s) (sym (write_data-steps settings l p q queue))
        (elim (Bool-cases (length s.children == 1)) [
          | inl one ↦
              subst (Passes old s) (sym (if_true _ _ one))
                (Passes-finished old s writer buffers (ground (arith, one)))
          | inr more ↦
              subst (Passes old s) (sym (if_false _ _ more))
                (Passes-kept old s writer (λ e. ground (arith, more, e)))
        ])

  write_data-empty : (l : Listener) → l.thread_buffers ≡ [] → write_data settings l ≡ some l
  unfolding write_data
  write_data-empty l queue = simp (queue, write_data)

  -- The packets of the listener are numbered without a gap, all readers have acknowledged those
  -- that are finished, and the others are kept. If nothing is queued, _writeData does nothing.
  -- Otherwise it sends one packet of the next number with the first bytes that wait, of at least
  -- one queued buffer, and keeps it behind the others for repetition; if there is no reader, all
  -- packets that are kept are finished at once. The bytes of the stream and their order stay the
  -- same. The packets that are queued or kept must not be more than the buffers, which must be
  -- fewer than the sequence numbers.
  pub write_data-Continues :
      (l : Listener) (old : List Data)
      → IsWriter settings received old l
      → settings.num_buffers < u16_mod
      → length l.thread_buffers + length l.write_buffers ≤ settings.num_buffers
      → ((l.thread_buffers ≡ []) × (write_data settings l ≡ some l))
        ⊎ ((l.thread_buffers ≢ []) × Continues old l (write_data settings l))
  write_data-Continues l old h buffers room = elim (queue-cases l.thread_buffers) [
    | inl queue ↦ inl (queue, write_data-empty l queue)
    | inr (p, (q, queue)) ↦ inr (
      λ e. absurd (omega (arith, ap length queue, ap length e)),
      Continues-Passes old l p q (write_data settings l) queue
          (write_data-Passes l old p q h buffers room queue),
    )
  ]
