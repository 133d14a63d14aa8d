-- ===== src/Stream/Out/Unfinished.antt =====
-- co/dataOStream.cpp: the last packet of a stream after an empty write.
use collage.Prelude.{
  ℕ, ◌-◌, ◌<◌, ◌≡◌, ap, ◌∙◌, true, false, List, [], ◌++◌, append-nil, arith, ltb, if_true, if_false,
  lt→ltb, length, All,
}
use collage.Stream.Out.{Packet, Setup, OStream, reset_buffer, send_pending, flush, write, disable}
use collage.Stream.Out.Sends.{
  Unpacks, IsWriting, flush-connected, send_pending-Keeps, write-IsWriting,
}
use collage.Stream.Out.Done.{disable-sent}

module _ (setup : Setup) (unpack : List (List ℕ) → List ℕ) (law : Unpacks setup unpack) where
  reset-unsaved : (t : OStream) → t.save ≡ false → (reset_buffer t).buffer ≡ []
  unfolding reset_buffer
  reset-unsaved t h = ground arith

  write_nothing-buffer :
      (s : OStream)
      → s.connected ≡ true
      → s.save ≡ false
      → setup.object_buffer_size < length s.buffer - s.buffer_start
      → (write setup s []).buffer ≡ []
  unfolding write
  write_nothing-buffer s c save full =
      append-nil _
      ∙ ap (λ t. t.buffer) (if_true (flush setup s false) s (lt→ltb _ _ full))
      ∙ ap (λ t. t.buffer) (flush-connected setup unpack law s false c)
      ∙ reset-unsaved (record (send_pending setup s false) { data_sent = true })
          ((send_pending-Keeps setup unpack law s false).4 ∙ save)

  -- On a stream that does not save its data, an empty write when the buffer is over its limit leaves
  -- nothing for disable to send: no packet of the stream is marked as the last, so that a receiver
  -- never sees it complete.
  pub empty_write_unfinished :
      (s : OStream) (before : List Packet) (ds : List (List ℕ))
      → IsWriting unpack before ds s
      → s.save ≡ false
      → setup.object_buffer_size < length s.buffer - s.buffer_start
      → (ps : List Packet) × ((disable setup (write setup s [])).sent ≡ before ++ ps)
        × All (λ p. p.last ≡ false) ps
  empty_write_unfinished s before ds w save full =
      let next = write-IsWriting setup unpack law s before ds [] w in
      (
        next.packets,
        disable-sent setup (write setup s []) next.enabled next.connected next.state
            ∙ if_false {b = ltb 0 (length (write setup s []).buffer)} _ _
                (rw (write_nothing-buffer s w.connected save full))
            ∙ next.sent,
        next.not_last,
      )
