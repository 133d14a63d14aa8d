-- ===== src/Rsp/Send/Advance.antt =====
-- co/rspConnection.cpp: the parts of _handleAck on the stream of a listener.
use collage.Prelude.{
  ℕ, ◌+◌, ◌≤◌, ◌<◌, ◌≡◌, refl, sym, ◌∙◌, subst, ◌≢◌, inr, true, false, not, some, List, arith, leb,
  ◌==◌, if_true, if_false, length, All, low,
}
use collage.Rsp.State.{
  Data, Settings, Child, Listener, find_connection, put_connection, u16_mod, sub16,
}
use collage.Rsp.Send.{finish_write_queue, least_acked, is_late, advance, handle_ack}
use collage.Rsp.Send.Finished.{IsWriter, Finishes, finish-Finishes}
use collage.Rsp.Send.Acked.{
  last_of, find-id, put-All, find-put_other, HasAcked, distance-ahead, least_acked-le,
}

module _ (settings : Settings) (received : ℕ → ℕ) where
  advance-runs :
      (l : Listener) (c : Child) (sequence acked : ℕ)
      → find_connection l.id l.children ≡ some c
      → least_acked settings l.id sequence l.children ≡ acked
      → leb (sub16 acked c.acked) settings.num_buffers ≡ true
      → advance settings l sequence ≡ finish_write_queue l acked
  unfolding advance
  advance-runs l c sequence acked found least near =
      rw (found, advance) (rw least (if_true _ _ near))

  -- The last part of _handleAck, when a reader has acknowledged k packets.
  pub advance-Finishes :
      (l : Listener) (old : List Data) (b k : ℕ)
      → IsWriter settings received old l
      → settings.num_buffers + settings.num_buffers < u16_mod
      → length old ≤ b
      → b ≤ k
      → k ≤ length old + length l.write_buffers
      → All (HasAcked received l.id b (length old + length l.write_buffers)) l.children
      → (m : ℕ) × (b ≤ m)
        × (m ≤ k)
        × (least_acked settings l.id (last_of k) l.children ≡ last_of m)
        × ((l' : Listener) × (advance settings l (last_of k) ≡ some l')
            × Finishes settings received old m l l')
  unfolding advance
  advance-Finishes l old b k h buffers low le le' all =
      let n = length old + length l.write_buffers in
      let (m, least, le_m, m_le, all_m) =
        least_acked-le settings received l.id b n k l.children buffers (omega (arith, h.room, low))
          le le' all in
      let (c, found, own) = h.own in
      let (l', run, done) =
        finish-Finishes settings received l old m h (omega (arith, buffers))
          (omega (arith, low, le_m)) (omega (arith, m_le, le')) all_m in
      let near : leb (sub16 (last_of m) c.acked) settings.num_buffers ≡ true = ground (
        arith,
        own.acked,
        distance-ahead (length old) m (omega (arith, low, le_m))
            (omega (arith, m_le, le', h.room, buffers)),
        m_le,
        le',
        h.room,
        low,
        le_m,
      ) in
      (
        m,
        le_m,
        m_le,
        least,
        (l', advance-runs l c (last_of k) (last_of m) found least near ∙ run, done),
      )

  pub IsWriter-acked :
      (l : Listener) (old : List Data) (k reader_id : ℕ) (c : Child)
      → IsWriter settings received old l
      → find_connection reader_id l.children ≡ some c
      → reader_id ≢ l.id
      → length old ≤ k
      → k ≤ length old + length l.write_buffers
      → k ≤ received reader_id
      → IsWriter settings received old (record l {
        children = put_connection (record c { acked = last_of k }) l.children;
        timeouts = 0;
      })
  IsWriter-acked l old k reader_id c h found other low le taken =
      let c_id = find-id reader_id l.children c found in
      let (own, found_own, is_own) = h.own in
      record {
        numbered = h.numbered;
        sequence = h.sequence;
        room = h.room;
        own = (
          own,
          find-put_other l.id (record c { acked = last_of k }) l.children
                (λ e. other (sym c_id ∙ e))
              ∙ found_own,
          is_own,
        );
        readers =
            put-All _ (record c { acked = last_of k }) l.children h.readers
              (inr (k, refl, low, le, subst (λ i. k ≤ received i) (sym c_id) taken));
      }

  -- The branches of _handleAck for a known reader.
  pub handle_ack-late :
      (l : Listener) (reader_id sequence : ℕ) (c : Child)
      → find_connection reader_id l.children ≡ some c
      → is_late settings c sequence ≡ true
      → handle_ack settings l reader_id l.id sequence ≡ some l
  unfolding handle_ack
  handle_ack-late l reader_id sequence c found late =
      let own : not (l.id == l.id) ≡ false = ground arith in
      rw (own, found, handle_ack) (if_true _ _ late)

  pub handle_ack-new :
      (l : Listener) (reader_id sequence : ℕ) (c : Child)
      → find_connection reader_id l.children ≡ some c
      → is_late settings c sequence ≡ false
      → handle_ack settings l reader_id l.id sequence
        ≡ advance settings
            (record l {
              children = put_connection (record c { acked = sequence }) l.children;
              timeouts = 0;
            })
            sequence
  unfolding handle_ack
  handle_ack-new l reader_id sequence c found new =
      let own : not (l.id == l.id) ≡ false = ground arith in
      rw (own, found, handle_ack) (if_false _ _ new)

  pub not-late :
      (b n a k : ℕ) (c : Child)
      → c.acked ≡ last_of a
      → settings.num_buffers + settings.num_buffers < u16_mod
      → n ≤ b + settings.num_buffers
      → b ≤ a
      → a < k
      → k ≤ n
      → is_late settings c (last_of k) ≡ false
  not-late b n a k c at buffers near low less le = ground (arith, at, buffers, near, low, less, le)
