-- ===== src/Rsp/Send/Packets.antt =====
-- co/rspConnection.cpp: the packet that _writeData sends, in the stream of a listener.
use collage.Prelude.{
  ℕ, ◌+◌, ◌%◌, ◌<◌, ◌≡◌, refl, sym, ap, ◌∙◌, subst, ◌⊎◌, inl, inr, none, some, List, [], ◌∷◌, ◌++◌,
  map, append_assoc, append-nil, arith, ◌==◌, if◌then◌else◌, if_false, Bool-cases, length,
  length-append, All, flatten, flatten-append, map-append,
}
use collage.Rsp.State.{Data, Settings, Child, Listener, find_connection, u16_mod, sub16}
use collage.Rsp.Send.{merge, send_packet, write_data, finish_write_queue}
use collage.Rsp.Send.Merge.{merge-flatten}
use collage.Rsp.Send.Acked.{HasAcked}
use collage.Rsp.Send.Finished.{IsNumbered, IsWriter}

-- The bytes of the stream: those sent and those that wait.
abbrev pub stream_of : List Data → Listener → List ℕ
stream_of old l =
    flatten (map (λ d. d.payload) (old ++ l.write_buffers)) ++ flatten l.thread_buffers

IsNumbered-snoc :
    (k : ℕ) (ds : List Data) (d : Data)
    → IsNumbered k ds
    → d.sequence ≡ (k + length ds) % u16_mod
    → IsNumbered k (ds ++ d ∷ [])
IsNumbered-snoc k [] d h e = (omega (arith, e), tt)
IsNumbered-snoc k (f ∷ ds) d h e = (h.0, IsNumbered-snoc (k + 1) ds d h.1 (omega (arith, e)))

none-some : (c : Child) → ¬ (none ≡ some c)
none-some c e = ground arith

module _ (received : ℕ → ℕ) (id : ℕ) where
  HasAcked-grow :
      (b n : ℕ) (cs : List Child)
      → All (HasAcked received id b n) cs
      → All (HasAcked received id b (n + 1)) cs
  HasAcked-grow b n [] all = tt
  HasAcked-grow b n (c ∷ cs) (inl own, all) = (inl own, HasAcked-grow b n cs all)
  HasAcked-grow b n (c ∷ cs) (inr (a, at, le, le', le''), all) =
      (inr (a, at, le, omega (arith, le'), le''), HasAcked-grow b n cs all)

  -- A listener without readers has no child but its own.
  pub HasAcked-alone :
      (k n : ℕ) (cs : List Child) (c : Child)
      → length cs ≡ 1
      → find_connection id cs ≡ some c
      → All (HasAcked received id k n) cs
  HasAcked-alone k n [] c one found = tt
  HasAcked-alone k n (d ∷ []) c one found = (
    inl (elim (Bool-cases (d.id == id)) [
      | inl e ↦ ground (arith, e)
      | inr e ↦ absurd (none-some c (sym (if_false _ _ e) ∙ found))
    ]),
    tt,
  )
  HasAcked-alone k n (d ∷ e ∷ cs) c one found = absurd (omega (arith, one))

pub same_stream :
    {bs cs : List Data} {t u : List (List ℕ)}
    → bs ≡ cs
    → t ≡ u
    → flatten (map (λ d. d.payload) bs) ++ flatten t
      ≡ flatten (map (λ d. d.payload) cs) ++ flatten u
same_stream {bs} {cs} {t} {u} e f =
    ap (λ b. flatten (map (λ d. d.payload) b) ++ flatten t) e
    ∙ ap (λ x. flatten (map (λ d. d.payload) cs) ++ flatten x) f

pub queue-cases :
    (t : List (List ℕ)) → (t ≡ []) ⊎ ((p : List ℕ) × ((q : List (List ℕ)) × (t ≡ p ∷ q)))
queue-cases [] = inl refl
queue-cases (p ∷ q) = inr (p, (q, refl))

module _ (settings : Settings) (received : ℕ → ℕ) where
  pub IsWriter-send_packet :
      (l : Listener) (old : List Data) (d : Data)
      → IsWriter settings received old l
      → length l.write_buffers < settings.num_buffers
      → d.sequence ≡ l.sequence
      → IsWriter settings received old (send_packet l d)
  unfolding send_packet
  IsWriter-send_packet l old d h room e =
      let len = length-append l.write_buffers (d ∷ []) in
      record {
        numbered = subst (IsNumbered 0) (append_assoc old l.write_buffers (d ∷ [])) (
            IsNumbered-snoc 0 (old ++ l.write_buffers) d h.numbered
              (omega (arith, e, h.sequence, length-append old l.write_buffers)));
        sequence = omega (arith, h.sequence, len);
        room = omega (arith, room, len);
        own = h.own;
        readers =
            subst (λ n. All (HasAcked received l.id (length old) n) l.children)
              {x = length old + length l.write_buffers + 1} (omega (arith, len))
              (HasAcked-grow received l.id (length old) (length old + length l.write_buffers)
                l.children h.readers);
      }

  pub IsWriter-taken :
      (l : Listener) (old : List Data) (q : List (List ℕ)) (n : ℕ)
      → IsWriter settings received old l
      → IsWriter settings received old (record l { thread_buffers = q; empty_buffers = n })
  IsWriter-taken l old q n h = record {
    numbered = h.numbered;
    sequence = h.sequence;
    room = h.room;
    own = h.own;
    readers = h.readers;
  }

module _ (settings : Settings) where
  -- _writeData on a queue that is not empty: the packet that it makes, and whether the writer is alone.
  unfoldable pub packet_of : Listener → List ℕ → List (List ℕ) → Data
  packet_of l p q = record {
    writer_id = l.id;
    sequence = l.sequence;
    payload = (merge settings.payload_size p q).payload;
  }

  pub packet_of-sequence :
      (l : Listener) (p : List ℕ) (q : List (List ℕ)) → (packet_of l p q).sequence ≡ l.sequence
  unfolding packet_of
  packet_of-sequence l p q = refl

  abbrev pub queue_of : Listener → List ℕ → List (List ℕ) → Listener
  queue_of l p q = record l {
    thread_buffers = (merge settings.payload_size p q).queue;
    empty_buffers = l.empty_buffers + (merge settings.payload_size p q).freed;
  }

  pub write_data-steps :
      (l : Listener) (p : List ℕ) (q : List (List ℕ))
      → l.thread_buffers ≡ p ∷ q
      → write_data settings l ≡ (
          let s = send_packet (queue_of l p q) (packet_of l p q) in
          if length s.children == 1 then finish_write_queue s (sub16 s.sequence 1) else some s)
  unfolding write_data packet_of
  write_data-steps l p q queue = rw (queue, write_data) refl

  pub stream-send_packet :
      (l : Listener) (old : List Data) (p : List ℕ) (q : List (List ℕ))
      → l.thread_buffers ≡ p ∷ q
      → stream_of old (send_packet (queue_of l p q) (packet_of l p q)) ≡ stream_of old l
  unfolding send_packet packet_of
  stream-send_packet l old p q queue =
      let m = merge settings.payload_size p q in
      let bytes : List Data → List ℕ = λ ds. flatten (map (λ d. d.payload) ds) in
      ap (λ b. b ++ flatten m.queue)
        (ap bytes (sym (append_assoc old l.write_buffers (packet_of l p q ∷ [])))
          ∙ ap flatten (map-append _ (old ++ l.write_buffers) (packet_of l p q ∷ []))
          ∙ flatten-append (map (λ d. d.payload) (old ++ l.write_buffers)) (m.payload ∷ []))
      ∙ append_assoc (bytes (old ++ l.write_buffers)) (m.payload ++ []) (flatten m.queue)
      ∙ ap (λ b. bytes (old ++ l.write_buffers) ++ (b ++ flatten m.queue)) (append-nil m.payload)
      ∙ ap (λ b. bytes (old ++ l.write_buffers) ++ b)
          (sym (merge-flatten settings.payload_size p q))
      ∙ ap (λ b. bytes (old ++ l.write_buffers) ++ flatten b) (sym queue)
