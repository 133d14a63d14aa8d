-- ===== src/Rsp/Send/HandleAck.antt =====
-- co/rspConnection.cpp: _handleAck, what it finishes of the stream of a listener.
use collage.Prelude.{
  ℕ, ◌+◌, ◌≤◌, ◌<◌, ◌≡◌, sym, ◌∙◌, subst, ◌≢◌, ◌⊎◌, inl, inr, true, false, some, List, arith, ltb,
  ltb→lt, Bool-cases, length, All, low,
}
use collage.Rsp.State.{Data, Settings, Child, Listener, find_connection, put_connection, u16_mod}
use collage.Rsp.Send.{is_late, handle_ack}
use collage.Rsp.Send.Finished.{IsWriter, Finishes}
use collage.Rsp.Send.Acked.{last_of, HasAcked, AnyAcked, least_acked-AnyAcked}
use collage.Rsp.Send.Advance.{
  advance-Finishes, IsWriter-acked, handle_ack-late, handle_ack-new, not-late,
}

module _ (settings : Settings) (received : ℕ → ℕ) where
  true-false : ¬ (true ≡ false)
  true-false e = ground arith

  acked-same :
      (b n m k : ℕ)
      → settings.num_buffers < u16_mod
      → n ≤ b + settings.num_buffers
      → b ≤ m
      → m ≤ k
      → k ≤ n
      → last_of m ≡ last_of k
      → m ≡ k
  acked-same b n m k buffers near low le high e = omega (arith, buffers, near, low, le, high, e)

  -- A reader that has acknowledged the first a packets of the stream acknowledges the first k, which
  -- it has received. What it and all other readers have acknowledged, and k, lie between the packets
  -- that are finished and those that are sent, no more packets are kept than there are buffers, and
  -- twice the buffers are fewer than the sequence numbers. Then either k is at most a, and nothing
  -- changes; or the first m packets are finished, where m is the least number of packets that a
  -- reader has acknowledged now: they go to the application of the writer, in order, no reader has
  -- acknowledged fewer, one has acknowledged just these, and the others are kept.
  pub handle_ack-Finishes :
      (l : Listener) (old : List Data) (a k reader_id : ℕ) (c : Child)
      → IsWriter settings received old l
      → settings.num_buffers + settings.num_buffers < u16_mod
      → find_connection reader_id l.children ≡ some c
      → reader_id ≢ l.id
      → c.acked ≡ last_of a
      → length old ≤ a
      → length old ≤ k
      → k ≤ length old + length l.write_buffers
      → k ≤ received reader_id
      → let acknowledged = put_connection (record c { acked = last_of k }) l.children in
        ((k ≤ a) × (handle_ack settings l reader_id l.id (last_of k) ≡ some l))
        ⊎ ((m : ℕ) × (m ≤ k)
            × ((m ≡ k) ⊎ AnyAcked l.id (last_of m) acknowledged)
            × ((l' : Listener) × (handle_ack settings l reader_id l.id (last_of k) ≡ some l')
                × Finishes settings received old m l l'))
  handle_ack-Finishes l old a k reader_id c h buffers found other at from low le taken =
      elim (Bool-cases (is_late settings c (last_of k))) [
        | inl late ↦ inl (
          elim (Bool-cases (ltb a k)) [
            | inl less ↦ absurd (
                true-false (
                  sym late
                  ∙ not-late settings received (length old) (length old + length l.write_buffers) a
                      k c at buffers (omega (arith, h.room)) from (ltb→lt a k less) le))
            | inr more ↦ ground (arith, more)
          ],
          handle_ack-late settings received l reader_id (last_of k) c found late,
        )
        | inr new ↦
            let t =
              IsWriter-acked settings received l old k reader_id c h found other low le taken in
            let (m, le_m, m_le, least, (l', run, done)) =
              advance-Finishes settings received _ old (length old) k t buffers (omega arith) low le
                t.readers in
            let all = put_connection (record c { acked = last_of k }) l.children in
            inr (
              m,
              m_le,
              elim (least_acked-AnyAcked settings l.id (last_of k) all) [
                | inl e ↦ inl (
                    acked-same (length old) (length old + length l.write_buffers) m k
                      (omega (arith, buffers)) (omega (arith, h.room)) le_m m_le le (sym least ∙ e))
                | inr some_reader ↦ inr (subst (λ x. AnyAcked l.id x all) least some_reader)
              ],
              (
                l',
                handle_ack-new settings received l reader_id (last_of k) c found new ∙ run,
                done,
              ),
            )
      ]

  -- When, with this acknowledgement, every reader has acknowledged k packets, all of these are
  -- finished.
  pub acknowledged_by_each :
      (l : Listener) (old : List Data) (a k reader_id : ℕ) (c : Child)
      → IsWriter settings received old l
      → settings.num_buffers + settings.num_buffers < u16_mod
      → find_connection reader_id l.children ≡ some c
      → reader_id ≢ l.id
      → c.acked ≡ last_of a
      → length old ≤ a
      → a < k
      → k ≤ length old + length l.write_buffers
      → k ≤ received reader_id
      → All
          (HasAcked received l.id k (length old + length l.write_buffers))
          (put_connection (record c { acked = last_of k }) l.children)
      → (l' : Listener) × (handle_ack settings l reader_id l.id (last_of k) ≡ some l')
        × Finishes settings received old k l l'
  acknowledged_by_each l old a k reader_id c h buffers found other at low less le taken all =
      let t =
        IsWriter-acked settings received l old k reader_id c h found other
          (omega (arith, low, less)) le taken in
      let new =
        not-late settings received (length old) (length old + length l.write_buffers) a k c at
          buffers (omega (arith, h.room)) low less le in
      let (m, le_m, m_le, least, (l', run, done)) =
        advance-Finishes settings received _ old k k t buffers (omega (arith, low, less))
          (omega arith) le all in
      (
        l',
        handle_ack-new settings received l reader_id (last_of k) c found new ∙ run,
        subst (λ x. Finishes settings received old x l l') {x = m} {y = k}
            (omega (arith, le_m, m_le)) done,
      )
