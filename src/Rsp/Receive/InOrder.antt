-- ===== src/Rsp/Receive/InOrder.antt =====
-- co/rspConnection.cpp: what a child connection posts to the application.
use collage.Prelude.{
  ℕ, zero, suc, ◌+◌, ◌-◌, ◌%◌, ◌≤◌, ◌<◌, ◌≡◌, refl, sym, ap, ◌∙◌, subst, ◌⊎◌, inl, inr, true, false,
  Option, none, some, List, [], ◌∷◌, ◌++◌, arith, ltb, if_true, if_false, Bool-cases, length,
  length-append,
}
use collage.Rsp.State.{Data, Settings, Child, u16_mod}
use collage.Rsp.Receive.{
  Received, new_data_buffer, no_data_buffer, slot, is_filled, put_slot, drop_hole, push_data_buffer,
  push_pending, receive_in_order, receive_early,
}

-- The pending packets that follow without a gap.
abbrev pub ready : List (Option Data) → ℕ
ready [] = 0
ready (none ∷ q) = 0
ready (some d ∷ q) = suc (ready q)

-- The number of the packet that the connection expects.
abbrev pub expected : ℕ → Child → ℕ
expected a c = a + length c.app_buffers

pub new_data_buffer-cases :
    (c : Child)
    → (new_data_buffer c ≡ none)
      ⊎ (new_data_buffer c ≡ some (record c { free_buffers = c.free_buffers - 1 }))
unfolding new_data_buffer
new_data_buffer-cases c = elim (Bool-cases (ltb 0 c.free_buffers)) [
  | inl h ↦ inr (if_true _ _ h)
  | inr h ↦ inl (if_false _ _ h)
]

pub pushed-length :
    (settings : Settings) (parent_id : ℕ) (r : Received) (d : Data)
    → length (push_data_buffer settings parent_id r d).child.app_buffers
      ≡ suc (length r.child.app_buffers)
unfolding push_data_buffer
pushed-length settings parent_id r d = omega (arith, length-append r.child.app_buffers (d ∷ []))

-- What is left of a connection that receives an early packet.
pub receive_early-cases :
    (size : ℕ) (c : Child) (d : Data)
    → ((receive_early size c d).child ≡ c)
      ⊎ (((receive_early size c d).child ≡ no_data_buffer c)
          ⊎ ((receive_early size c d).child ≡ record c {
            free_buffers = c.free_buffers - 1;
            recv_buffers = put_slot (size - 1) d c.recv_buffers;
          }))
unfolding receive_early
receive_early-cases size c d = elim (Bool-cases (is_filled (slot (size - 1) c.recv_buffers))) [
  | inl g ↦ inl (rw g)
  | inr g ↦
      inr (elim (new_data_buffer-cases c) [ inl e ↦ inl (rw (g, e)) | inr e ↦ inr (rw (g, e)) ])
]

module _ (packets : ℕ → Data) where
  -- The n packets of the writer from the first one on.
  abbrev pub range : ℕ → ℕ → List Data
  range a zero = []
  range a (suc n) = packets a ∷ range (a + 1) n

  -- A deque whose slots hold the packets from number n on, or nothing.
  abbrev pub IsPending : ℕ → List (Option Data) → Type 0
  IsPending n [] = Unit
  IsPending n (none ∷ q) = IsPending (n + 1) q
  IsPending n (some d ∷ q) = (d ≡ packets n) × IsPending (n + 1) q

  -- The connection has posted the packets from number a on, without a gap.
  pub record IsReader (a : ℕ) (c : Child) : Type 0 where
    pub sequence : c.sequence ≡ expected a c % u16_mod
    pub posted : c.app_buffers ≡ range a (length c.app_buffers)
    pub pending : IsPending (expected a c + 1) c.recv_buffers

  range-snoc : (a n : ℕ) → range a n ++ packets (a + n) ∷ [] ≡ range a (suc n)
  range-snoc a zero = ap (λ k. packets k ∷ []) (omega arith)
  range-snoc a (suc n) =
      ap (λ k. packets a ∷ (range (a + 1) n ++ packets k ∷ [])) (omega arith)
      ∙ ap (λ l. packets a ∷ l) (range-snoc (a + 1) n)

  IsPending-put_slot :
      (i n m : ℕ) (q : List (Option Data))
      → IsPending n q
      → n + i ≡ m
      → IsPending n (put_slot i (packets m) q)
  IsPending-put_slot zero n m [] h e = (ap packets (omega arith), tt)
  IsPending-put_slot zero n m (none ∷ q) h e = (ap packets (omega arith), h)
  IsPending-put_slot zero n m (some d ∷ q) h e = (ap packets (omega arith), h.1)
  IsPending-put_slot (suc i) n m [] h e = IsPending-put_slot i (n + 1) m [] tt (omega arith)
  IsPending-put_slot (suc i) n m (none ∷ q) h e = IsPending-put_slot i (n + 1) m q h (omega arith)
  IsPending-put_slot (suc i) n m (some d ∷ q) h e =
      (h.0, IsPending-put_slot i (n + 1) m q h.1 (omega arith))

  -- While the pending packets are posted, the first slot is that of the expected packet.
  record IsPosting (a : ℕ) (q : List (Option Data)) (c : Child) : Type 0 where
    sequence : c.sequence ≡ expected a c % u16_mod
    posted : c.app_buffers ≡ range a (length c.app_buffers)
    pending : IsPending (expected a c) q

  module _ (settings : Settings) (parent_id : ℕ) where
    IsPosting-push :
        (a : ℕ) (q : List (Option Data)) (d : Data) (r : Received)
        → IsPosting a (some d ∷ q) r.child
        → IsPosting a q (push_data_buffer settings parent_id r d).child
    unfolding push_data_buffer
    IsPosting-push a q d r h =
        let grown : length (r.child.app_buffers ++ d ∷ []) ≡ length r.child.app_buffers + 1 =
          length-append r.child.app_buffers (d ∷ []) in
        record {
          sequence = omega (arith, grown, h.sequence);
          posted =
              ap (λ l. l ++ d ∷ []) h.posted
              ∙ ap (λ e. range a (length r.child.app_buffers) ++ e ∷ []) h.pending.0
              ∙ range-snoc a (length r.child.app_buffers)
              ∙ ap (range a) {x = suc (length r.child.app_buffers)} (omega (arith, grown));
          pending = subst (λ n. IsPending n q) (omega (arith, grown)) h.pending.1;
        }

    IsPosting-push_pending :
        (a : ℕ) (q : List (Option Data)) (r : Received)
        → IsPosting a q r.child
        → (let c = (push_pending settings parent_id q r).child in IsPosting a c.recv_buffers c)
          × (length (push_pending settings parent_id q r).child.app_buffers
              ≡ length r.child.app_buffers + ready q)
          × (is_filled (slot 0 (push_pending settings parent_id q r).child.recv_buffers) ≡ false)
    unfolding push_pending
    IsPosting-push_pending a [] r h =
        (record { sequence = h.sequence; posted = h.posted; pending = tt }, omega arith, refl)
    IsPosting-push_pending a (none ∷ q) r h = (
      record { sequence = h.sequence; posted = h.posted; pending = h.pending },
      omega arith,
      refl,
    )
    IsPosting-push_pending a (some d ∷ q) r h =
        let (posting, longer, hole) =
          IsPosting-push_pending a q (push_data_buffer settings parent_id r d)
            (IsPosting-push a q d r h) in
        (posting, omega (arith, longer, pushed-length settings parent_id r d), hole)

    IsReader-drop_hole :
        (a : ℕ) (q : List (Option Data)) (c : Child)
        → IsPosting a q c
        → is_filled (slot 0 q) ≡ false
        → IsReader a (record c { recv_buffers = drop_hole q; event = true })
    IsReader-drop_hole a [] c h hole = record {
      sequence = h.sequence;
      posted = h.posted;
      pending = tt;
    }
    IsReader-drop_hole a (none ∷ q) c h hole = record {
      sequence = h.sequence;
      posted = h.posted;
      pending = h.pending;
    }
    IsReader-drop_hole a (some d ∷ q) c h hole = absurd (ground arith)

    pub IsReader-receive_in_order :
        (a : ℕ) (c : Child) (d : Data)
        → IsReader a c
        → d ≡ packets (expected a c)
        → (let e = (receive_in_order settings parent_id c d).child in
            IsReader a e
            × (length e.app_buffers ≡ length c.app_buffers + suc (ready c.recv_buffers)))
    unfolding receive_in_order
    IsReader-receive_in_order a c d h e =
        let r : Received = record { child = c; sent = [] } in
        let first =
          IsPosting-push a c.recv_buffers d r
            (record { sequence = h.sequence; posted = h.posted; pending = (e, h.pending) }) in
        let (posting, longer, hole) =
          IsPosting-push_pending a c.recv_buffers (push_data_buffer settings parent_id r d) first in
        (
          IsReader-drop_hole a _ _ posting hole,
          omega (arith, longer, pushed-length settings parent_id r d),
        )

  -- What a step leaves: a reader that has posted no less.
  abbrev pub Advances : ℕ → Child → Child → Type 0
  Advances a c e = IsReader a e × (length c.app_buffers ≤ length e.app_buffers)

  pub Advances-no_data_buffer : (a : ℕ) (c : Child) → IsReader a c → Advances a c (no_data_buffer c)
  unfolding no_data_buffer
  Advances-no_data_buffer a c h =
      (record { sequence = h.sequence; posted = h.posted; pending = h.pending }, omega arith)

  pub Advances-receive_early :
      (a size : ℕ) (c : Child) (d : Data)
      → IsReader a c
      → 0 < size
      → d ≡ packets (expected a c + size)
      → Advances a c (receive_early size c d).child
  Advances-receive_early a size c d h positive e = elim (receive_early-cases size c d) [
    | inl g ↦ subst (Advances a c) (sym g) (h, omega arith)
    | inr (inl g) ↦ subst (Advances a c) (sym g) (Advances-no_data_buffer a c h)
    | inr (inr g) ↦ subst (Advances a c) (sym g) (
      record {
        sequence = h.sequence;
        posted = h.posted;
        pending =
            subst (λ x. IsPending (expected a c + 1) (put_slot (size - 1) x c.recv_buffers)) (sym e)
              (IsPending-put_slot (size - 1) (expected a c + 1) (expected a c + size) c.recv_buffers
                h.pending (omega (arith, positive)));
      },
      omega arith,
    )
  ]
