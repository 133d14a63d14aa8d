-- ===== src/Rsp/Send/Finished.antt =====
-- co/rspConnection.cpp: _handleAck and _finishWriteQueue on the stream of a listener.
use collage.Prelude.{
  ℕ, zero, suc, ◌+◌, ◌-◌, ◌%◌, ◌≤◌, ◌<◌, ◌≡◌, refl, sym, ap, ◌∙◌, subst, inl, some, List, [], ◌∷◌,
  ◌++◌, append_assoc, arith, length, length-append, take, drop, All,
}
use mathlib.Core.Option.{some-injective}
use collage.Rsp.State.{
  Data, Settings, Child, Listener, find_connection, put_connection, u16_mod, sub16,
}
use collage.Rsp.Send.{finished, unfinished, self_receive, finish_write_queue}
use collage.Rsp.Send.Acked.{last_of, find-id, put-All, find-put_same, HasAcked}

-- Packets with consecutive 16-bit numbers from k on.
abbrev pub IsNumbered : ℕ → List Data → Type 0
IsNumbered k [] = Unit
IsNumbered k (d ∷ ds) = (d.sequence ≡ k % u16_mod) × IsNumbered (k + 1) ds

-- The child connection of the writer to itself, with the packets `old` posted.
pub record IsOwn (old : List Data) (c : Child) : Type 0 where
  pub posted : c.app_buffers ≡ old
  pub sequence : c.sequence ≡ length old % u16_mod
  pub acked : c.acked ≡ last_of (length old)

-- The packets `old` are finished: the application has got them, and all readers have acknowledged
-- them. The rest of the stream is kept for repetition.
pub record IsWriter (settings : Settings) (received : ℕ → ℕ) (old : List Data) (l : Listener)
    : Type 0 where
  pub numbered : IsNumbered 0 (old ++ l.write_buffers)
  pub sequence : l.sequence ≡ (length old + length l.write_buffers) % u16_mod
  pub room : length l.write_buffers ≤ settings.num_buffers
  pub own : (c : Child) × (find_connection l.id l.children ≡ some c) × IsOwn old c
  pub readers :
      All (HasAcked received l.id (length old) (length old + length l.write_buffers)) l.children

pub take-all-drop : (n : ℕ) (bs : List Data) → take n bs ++ drop n bs ≡ bs
take-all-drop zero bs = refl
take-all-drop (suc n) [] = refl
take-all-drop (suc n) (b ∷ bs) = ap (λ l. b ∷ l) (take-all-drop n bs)

length-take : (n : ℕ) (bs : List Data) → n ≤ length bs → length (take n bs) ≡ n
length-take zero bs h = refl
length-take (suc n) [] h = omega (arith, h)
length-take (suc n) (b ∷ bs) h = ap suc (length-take n bs (omega (arith, h)))

-- What finishing takes off and leaves.
abbrev pub Finishes : Settings → (ℕ → ℕ) → List Data → ℕ → Listener → Listener → Type 0
Finishes settings received old k l m =
    (done : List Data) × (l.write_buffers ≡ done ++ m.write_buffers)
    × (length old + length done ≡ k)
    × IsWriter settings received (old ++ done) m

finished-length :
    (old wb : List Data) (k sequence : ℕ)
    → sequence ≡ (length old + length wb) % u16_mod
    → length old ≤ k
    → k ≤ length old + length wb
    → length wb < u16_mod
    → length (finished (sub16 sequence (last_of k + 1)) wb) ≡ k - length old
finished-length old wb k sequence e h g near =
    let size : sub16 sequence (last_of k + 1) ≡ (length old + length wb) - k =
      omega (arith, e, h, g, near) in
    length-take _ wb (omega arith) ∙ omega (arith, size, h, g)

-- What _finishWriteQueue makes of a listener, of whose buffers it takes off `done`.
abbrev pub finish_with : Child → List Data → List Data → Listener → Listener
finish_with c done rest l = record l {
  children = put_connection (self_receive c done) l.children;
  write_buffers = rest;
  empty_buffers = l.empty_buffers + length done;
  timeouts = 0;
}

pub finish-runs :
    (l : Listener) (k : ℕ) (c : Child)
    → find_connection l.id l.children ≡ some c
    → finish_write_queue l k ≡ (
        let size = sub16 l.sequence (k + 1) in
        some (finish_with c (finished size l.write_buffers) (unfinished size l.write_buffers) l))
unfolding finish_write_queue
finish-runs l k c found = rw (found, finish_write_queue) refl

pub finish-queue :
    (l m : Listener) (k : ℕ) (c : Child)
    → find_connection l.id l.children ≡ some c
    → finish_write_queue l k ≡ some m
    → (m.thread_buffers ≡ l.thread_buffers) × (m.sent ≡ l.sent)
finish-queue l m k c found run =
    let same = sym (some-injective _ m (sym (finish-runs l k c found) ∙ run)) in
    (
      ap (λ x. x.thread_buffers) {x = m} {y = finish_with c _ _ l} same,
      ap (λ x. x.sent) {x = m} {y = finish_with c _ _ l} same,
    )

module _ (settings : Settings) (received : ℕ → ℕ) where
  IsOwn-self_receive :
      (old done : List Data) (c : Child) → IsOwn old c → IsOwn (old ++ done) (self_receive c done)
  unfolding self_receive
  IsOwn-self_receive old done c h = record {
    posted = ap (λ l. l ++ done) h.posted;
    sequence = omega (arith, h.sequence, length-append old done);
    acked = ap (λ s. sub16 s 1) (omega (arith, h.sequence, length-append old done));
  }

  self_receive-id : (c : Child) (done : List Data) → (self_receive c done).id ≡ c.id
  unfolding self_receive
  self_receive-id c done = refl

  readers-at :
      (id b b' n n' : ℕ) (cs : List Child)
      → b ≡ b'
      → n ≡ n'
      → All (HasAcked received id b n) cs
      → All (HasAcked received id b' n') cs
  readers-at id b b' n n' cs e f all =
      subst (λ x. All (HasAcked received id x n') cs) e
        (subst (λ x. All (HasAcked received id b x) cs) f all)

  IsWriter-finish :
      (l : Listener) (old done rest : List Data) (k : ℕ) (c : Child)
      → IsWriter settings received old l
      → find_connection l.id l.children ≡ some c
      → IsOwn old c
      → l.write_buffers ≡ done ++ rest
      → length old + length done ≡ k
      → All (HasAcked received l.id k (length old + length l.write_buffers)) l.children
      → IsWriter settings received (old ++ done) (finish_with c done rest l)
  IsWriter-finish l old done rest k c h found own whole count all =
      let c_id = self_receive-id c done ∙ find-id l.id l.children c found in
      let len = length-append old done in
      let all_len = ap length whole ∙ length-append done rest in
      record {
        numbered =
            subst (IsNumbered 0) (ap (λ x. old ++ x) whole ∙ sym (append_assoc old done rest))
              h.numbered;
        sequence = omega (arith, h.sequence, len, all_len);
        room = omega (arith, h.room, all_len);
        own = (
          self_receive c done,
          subst
              (λ i.
                find_connection i (put_connection (self_receive c done) l.children)
                ≡ some (self_receive c done))
              c_id
              (find-put_same (self_receive c done) c l.children
                (ap (λ i. find_connection i l.children) c_id ∙ found)),
          IsOwn-self_receive old done c own,
        );
        readers =
            readers-at l.id k (length (old ++ done)) (length old + length l.write_buffers)
              (length (old ++ done) + length rest) (put_connection (self_receive c done) l.children)
              (omega (arith, count, len)) (omega (arith, len, all_len))
              (put-All _ (self_receive c done) l.children all (inl c_id));
      }

  pub finish-Finishes :
      (l : Listener) (old : List Data) (k : ℕ)
      → IsWriter settings received old l
      → settings.num_buffers < u16_mod
      → length old ≤ k
      → k ≤ length old + length l.write_buffers
      → All (HasAcked received l.id k (length old + length l.write_buffers)) l.children
      → (m : Listener) × (finish_write_queue l (last_of k) ≡ some m)
        × Finishes settings received old k l m
  finish-Finishes l old k h buffers le le' all =
      let (c, found, own) = h.own in
      let size = sub16 l.sequence (last_of k + 1) in
      let done = finished size l.write_buffers in
      let whole = sym (take-all-drop (length l.write_buffers - size) l.write_buffers) in
      let count : length old + length done ≡ k = omega (
        arith,
        le,
        finished-length old l.write_buffers k l.sequence h.sequence le le'
            (omega (arith, h.room, buffers)),
      ) in
      (
        _,
        finish-runs l (last_of k) c found,
        (done, whole, count, IsWriter-finish l old done _ k c h found own whole count all),
      )
