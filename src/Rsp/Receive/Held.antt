-- ===== src/Rsp/Receive/Held.antt =====
-- co/rspConnection.cpp: _handleData, the packets that are posted or wait.
use collage.Prelude.{
  ℕ, zero, suc, ◌+◌, ◌-◌, ◌≤◌, ◌<◌, ◌≡◌, refl, subst, ◌⊎◌, inl, inr, true, false, Option, none,
  some, List, [], ◌∷◌, arith, ltb, ltb→lt, Bool-cases,
}
use collage.Rsp.State.{Data, Settings, Child}
use collage.Rsp.Receive.{
  Received, slot, is_filled, put_slot, drop_hole, push_data_buffer, push_pending, receive_in_order,
}
use collage.Rsp.Receive.InOrder.{expected, pushed-length}

-- Packet n has been posted, or waits in slot n - e of the deque q.
abbrev pub Held : ℕ → List (Option Data) → ℕ → Type 0
Held e q n = (n < e) ⊎ ((e ≤ n) × (is_filled (slot (n - e) q) ≡ true))

Held-suc :
    (e n : ℕ) (o : Option Data) (q : List (Option Data))
    → Held e (o ∷ q) n
    → e < n
    → Held (e + 1) q n
Held-suc e n o q (inl h) g = inl (omega (arith, h))
Held-suc e n o q (inr (h, f)) g = inr (
  omega (arith, g),
  subst (λ i. is_filled (slot i (o ∷ q)) ≡ true) {x = n - e} {y = suc (n - (e + 1))}
      (omega (arith, g)) f,
)

slot-front :
    (i : ℕ) (o : Option Data) (q : List (Option Data))
    → is_filled (slot i (none ∷ q)) ≡ true
    → is_filled (slot i (o ∷ q)) ≡ true
slot-front zero o q h = absurd (ground arith)
slot-front (suc i) o q h = h

Held-here : (e n : ℕ) (q : List (Option Data)) → Held e q n → ltb e n ≡ false → n < e + 1
Held-here e n q h g = ground arith

pub Held-fewer :
    (e n : ℕ) (o : Option Data) (q : List (Option Data)) → Held e (none ∷ q) n → Held e (o ∷ q) n
Held-fewer e n o q (inl h) = inl h
Held-fewer e n o q (inr (h, f)) = inr (h, slot-front (n - e) o q f)

Held-push : (e n : ℕ) (d : Data) (q : List (Option Data)) → Held e (some d ∷ q) n → Held (e + 1) q n
Held-push e n d q h = elim (Bool-cases (ltb e n)) [
  | inl g ↦ Held-suc e n (some d) q h (ltb→lt e n g)
  | inr g ↦ inl (Held-here e n (some d ∷ q) h g)
]

Held-drop_hole :
    (e n : ℕ) (q : List (Option Data))
    → is_filled (slot 0 q) ≡ false
    → Held e q n
    → Held e (none ∷ drop_hole q) n
Held-drop_hole e n q hole (inl h) = inl h
Held-drop_hole e n [] hole (inr (h, f)) = absurd (ground arith)
Held-drop_hole e n (none ∷ q) hole (inr h) = inr h
Held-drop_hole e n (some d ∷ q) hole h = absurd (ground arith)

-- The packet of number n has been posted or waits to be.
abbrev pub Holds : ℕ → Child → ℕ → Type 0
Holds a c n = Held (expected a c) (none ∷ c.recv_buffers) n

module _ (settings : Settings) (parent_id a n : ℕ) where
  Held-push_pending :
      (q : List (Option Data)) (r : Received)
      → Held (expected a r.child) q n
      → (let c = (push_pending settings parent_id q r).child in
          Held (expected a c) c.recv_buffers n × (is_filled (slot 0 c.recv_buffers) ≡ false))
  unfolding push_pending
  Held-push_pending [] r h = (h, refl)
  Held-push_pending (none ∷ q) r h = (h, refl)
  Held-push_pending (some d ∷ q) r h =
      Held-push_pending q (push_data_buffer settings parent_id r d) (
        subst (λ e. Held e q n) (omega (arith, pushed-length settings parent_id r d))
          (Held-push (expected a r.child) n d q h))

  pub Holds-receive_in_order :
      (c : Child) (d : Data)
      → Held (expected a c) (some d ∷ c.recv_buffers) n
      → Holds a (receive_in_order settings parent_id c d).child n
  unfolding receive_in_order
  Holds-receive_in_order c d h =
      let r : Received = record { child = c; sent = [] } in
      let (held, hole) =
        Held-push_pending c.recv_buffers (push_data_buffer settings parent_id r d) (
          subst (λ e. Held e c.recv_buffers n) (omega (arith, pushed-length settings parent_id r d))
            (Held-push (expected a c) n d c.recv_buffers h)) in
      Held-drop_hole _ n _ hole held

pub slot-put_slot :
    (i j : ℕ) (d : Data) (q : List (Option Data))
    → is_filled (slot j q) ≡ true
    → is_filled (slot j (put_slot i d q)) ≡ true
slot-put_slot i j d [] h = absurd (ground arith)
slot-put_slot zero zero d (o ∷ q) h = refl
slot-put_slot zero (suc j) d (o ∷ q) h = h
slot-put_slot (suc i) zero d (o ∷ q) h = h
slot-put_slot (suc i) (suc j) d (o ∷ q) h = slot-put_slot i j d q h

pub slot-put_slot_same :
    (i : ℕ) (d : Data) (q : List (Option Data)) → is_filled (slot i (put_slot i d q)) ≡ true
slot-put_slot_same zero d [] = refl
slot-put_slot_same zero d (o ∷ q) = refl
slot-put_slot_same (suc i) d [] = slot-put_slot_same i d []
slot-put_slot_same (suc i) d (o ∷ q) = slot-put_slot_same i d q
