-- ===== src/Rsp/Receive/Complete.antt =====
-- co/rspConnection.cpp: _handleData, when all packets arrive.
use collage.Prelude.{
  ℕ, suc, ◌+◌, ◌-◌, ◌%◌, ◌≤◌, ◌<◌, ◌≡◌, refl, sym, subst, ◌⊎◌, inl, inr, true, false, Option, none,
  some, List, [], ◌∷◌, arith, ltb, ◌==◌, if_true, ltb→lt, Bool-cases, contains,
}
use mathlib.Core.Bool.{false≢true}
use collage.Rsp.State.{Data, Settings, Child, u16_mod, sub16}
use collage.Rsp.Receive.{
  new_data_buffer, no_data_buffer, slot, is_filled, put_slot, is_outside, receive_early,
  receive_data,
}
use collage.Rsp.Receive.InOrder.{expected, IsReader, new_data_buffer-cases, receive_early-cases}
use collage.Rsp.Receive.Posted.{
  Advances-receive_data, IsInWindow, same-number, receive_data-none, receive_data-expected,
  receive_data-outside, receive_data-inside, early-size,
}
use collage.Rsp.Receive.Held.{
  Held, Held-fewer, Holds, slot-put_slot, slot-put_slot_same, Holds-receive_in_order,
}

module _ (settings : Settings) (parent_id a n : ℕ) where
  Holds-put_slot :
      (c : Child) (i free : ℕ) (d : Data)
      → Holds a c n
      → Holds a (record c { free_buffers = free; recv_buffers = put_slot i d c.recv_buffers }) n
  Holds-put_slot c i free d (inl h) = inl h
  Holds-put_slot c i free d (inr (h, f)) =
      inr (h, slot-put_slot (suc i) (n - expected a c) d (none ∷ c.recv_buffers) f)

  Holds-no_data_buffer : (c : Child) → Holds a c n → Holds a (no_data_buffer c) n
  unfolding no_data_buffer
  Holds-no_data_buffer c h = h

  Holds-receive_early :
      (size : ℕ) (c : Child) (d : Data) → Holds a c n → Holds a (receive_early size c d).child n
  Holds-receive_early size c d h = elim (receive_early-cases size c d) [
    | inl g ↦ subst (λ e. Holds a e n) (sym g) h
    | inr (inl g) ↦ subst (λ e. Holds a e n) (sym g) (Holds-no_data_buffer c h)
    | inr (inr g) ↦
        subst (λ e. Holds a e n) (sym g) (Holds-put_slot c (size - 1) (c.free_buffers - 1) d h)
  ]

  -- No packet is lost once it has been taken.
  pub Holds-receive_data :
      (c : Child) (d : Data) → Holds a c n → Holds a (receive_data settings parent_id c d).child n
  Holds-receive_data c d h = elim (Bool-cases (c.sequence == d.sequence)) [
    | inl e ↦ elim (new_data_buffer-cases c) [
      | inl f ↦
          subst (λ e. Holds a e n) (sym (receive_data-none settings parent_id c d e f))
            (Holds-no_data_buffer c h)
      | inr f ↦
          subst (λ r. Holds a r.child n) (sym (receive_data-expected settings parent_id c d _ e f))
            (Holds-receive_in_order settings parent_id a n _ d
              (Held-fewer (expected a c) n (some d) c.recv_buffers h))
    ]
    | inr e ↦ elim (Bool-cases (is_outside settings.num_buffers c.sequence d.sequence)) [
      | inl f ↦ subst (λ e. Holds a e n) (sym (receive_data-outside settings parent_id c d e f)) h
      | inr f ↦
          subst (λ r. Holds a r.child n) (sym (receive_data-inside settings parent_id c d e f))
            (Holds-receive_early (sub16 d.sequence c.sequence) c d h)
    ]
  ]

new_data_buffer-takes :
    (c : Child)
    → 0 < c.free_buffers
    → new_data_buffer c ≡ some (record c { free_buffers = c.free_buffers - 1 })
unfolding new_data_buffer
new_data_buffer-takes c h = if_true {b = ltb 0 c.free_buffers} _ _ (ground (arith, h))

module _ (size a : ℕ) (c : Child) (d : Data) where
  receive_early-got :
      is_filled (slot (size - 1) c.recv_buffers) ≡ true → (receive_early size c d).child ≡ c
  unfolding receive_early
  receive_early-got g = rw g

  receive_early-takes :
      is_filled (slot (size - 1) c.recv_buffers) ≡ false
      → 0 < c.free_buffers
      → (receive_early size c d).child ≡ record c {
        free_buffers = c.free_buffers - 1;
        recv_buffers = put_slot (size - 1) d c.recv_buffers;
      }
  unfolding receive_early
  receive_early-takes g h = rw (g, new_data_buffer-takes c h)

  Held-size :
      (n : ℕ) (q : List (Option Data))
      → expected a c < n
      → size ≡ n - expected a c
      → is_filled (slot (size - 1) q) ≡ true
      → Held (expected a c) (none ∷ q) n
  Held-size n q early e f = inr (
    omega (arith, early),
    subst (λ i. is_filled (slot i (none ∷ q)) ≡ true) {x = suc (size - 1)} {y = n - expected a c}
        (omega (arith, early, e)) f,
  )

  Holds-early :
      (n : ℕ)
      → expected a c < n
      → size ≡ n - expected a c
      → 0 < c.free_buffers
      → Holds a (receive_early size c d).child n
  Holds-early n early e h = elim (Bool-cases (is_filled (slot (size - 1) c.recv_buffers))) [
    | inl g ↦
        subst (λ f. Holds a f n) (sym (receive_early-got g)) (Held-size n c.recv_buffers early e g)
    | inr g ↦
        subst (λ f. Holds a f n) (sym (receive_early-takes g h))
          (Held-size n (put_slot (size - 1) d c.recv_buffers) early e
            (slot-put_slot_same (size - 1) d c.recv_buffers))
  ]

outside-late :
    (b e n : ℕ)
    → IsInWindow b e n
    → n ≤ e + b
    → (e % u16_mod == n % u16_mod) ≡ false
    → is_outside b (e % u16_mod) (n % u16_mod) ≡ true
    → n < e
unfolding is_outside
outside-late b e n h near g f = ground (arith, h.0, h.1, near)

Held-expected : (e n : ℕ) (d : Data) (q : List (Option Data)) → n ≡ e → Held e (some d ∷ q) n
Held-expected e n d q h = inr (
  omega (arith, h),
  subst (λ i. is_filled (slot i (some d ∷ q)) ≡ true) {x = 0} {y = n - e} (omega (arith, h)) refl,
)

module _ (packets : ℕ → Data) (settings : Settings) (parent_id : ℕ) where
  abbrev pub receive_all : Child → List ℕ → Child
  receive_all c [] = c
  receive_all c (n ∷ ns) = receive_all (receive_data settings parent_id c (packets n)).child ns

module _ (packets : ℕ → Data) (settings : Settings) (parent_id a : ℕ) where
  -- A packet that arrives when a buffer is free is posted or kept.
  Holds-arrival :
      (c : Child) (n : ℕ)
      → IsReader packets a c
      → IsInWindow settings.num_buffers (expected a c) n
      → n ≤ expected a c + settings.num_buffers
      → (packets n).sequence ≡ n % u16_mod
      → 0 < c.free_buffers
      → Holds a (receive_data settings parent_id c (packets n)).child n
  Holds-arrival c n h window near numbered free =
      elim (Bool-cases (c.sequence == (packets n).sequence)) [
        | inl e ↦
            subst (λ r. Holds a r.child n)
              (sym (
                receive_data-expected settings parent_id c (packets n) _ e
                  (new_data_buffer-takes c free)))
              (Holds-receive_in_order settings parent_id a n _ (packets n) (
                Held-expected (expected a c) n (packets n) c.recv_buffers (
                  same-number settings.num_buffers (expected a c) n window
                    (ground (arith, e, h.sequence, numbered)))))
        | inr e ↦
            elim (Bool-cases (is_outside settings.num_buffers c.sequence (packets n).sequence)) [
              | inl f ↦
                  subst (λ g. Holds a g n)
                    (sym (receive_data-outside settings parent_id c (packets n) e f))
                    (inl (
                      outside-late settings.num_buffers (expected a c) n window near
                        (rw (sym h.sequence, sym numbered) e)
                        (rw (sym h.sequence, sym numbered) f)))
              | inr f ↦
                  let (early, size) =
                    early-size packets settings parent_id a c n h window numbered e f in
                  subst (λ r. Holds a r.child n)
                    (sym (receive_data-inside settings parent_id c (packets n) e f))
                    (Holds-early (sub16 (packets n).sequence c.sequence) a c (packets n) n early
                      size free)
            ]
      ]

  -- Each packet arrives within the buffers of the group, and finds a free buffer.
  abbrev pub IsTaken : Child → List ℕ → Type 0
  IsTaken c [] = Unit
  IsTaken c (n ∷ ns) =
      IsInWindow settings.num_buffers (expected a c) n
      × (n ≤ expected a c + settings.num_buffers)
      × ((packets n).sequence ≡ n % u16_mod)
      × (0 < c.free_buffers)
      × IsTaken (receive_data settings parent_id c (packets n)).child ns

  Holds-receive_all :
      (c : Child) (ns : List ℕ) (m : ℕ)
      → IsReader packets a c
      → IsTaken c ns
      → (Holds a c m) ⊎ (contains ns m ≡ true)
      → Holds a (receive_all packets settings parent_id c ns) m
  Holds-receive_all c [] m h t (inl k) = k
  Holds-receive_all c [] m h t (inr k) = absurd (ground arith)
  Holds-receive_all c (n ∷ ns) m h (window, near, numbered, free, t) (inl k) =
      Holds-receive_all (receive_data settings parent_id c (packets n)).child ns m
        (Advances-receive_data packets settings parent_id a c n h window numbered).0 t
        (inl (Holds-receive_data settings parent_id a m c (packets n) k))
  Holds-receive_all c (n ∷ ns) m h (window, near, numbered, free, t) (inr k) =
      Holds-receive_all (receive_data settings parent_id c (packets n)).child ns m
        (Advances-receive_data packets settings parent_id a c n h window numbered).0 t
        (elim (Bool-cases (n == m)) [
          | inl e ↦ inl (
              subst (Holds a (receive_data settings parent_id c (packets n)).child) {x = n} {y = m}
                (ground (arith, e)) (Holds-arrival c n h window near numbered free))
          | inr e ↦ inr (ground (arith, k, e))
        ])

  not-Held : (e : ℕ) (q : List (Option Data)) → ¬ Held e (none ∷ q) e
  not-Held e q (inl h) = omega (arith, h)
  not-Held e q (inr (h, f)) =
      false≢true
        (subst (λ i. is_filled (slot i (none ∷ q)) ≡ true) {x = e - e} {y = 0} (omega arith) f)

  -- If each of the packets up to number b arrives at least once, in whatever order, the application
  -- gets all of them, provided that each arrival lies within the buffers of the group and finds a
  -- free buffer.
  pub receive_all-delivers :
      (c : Child) (ns : List ℕ) (b : ℕ)
      → IsReader packets a c
      → IsTaken c ns
      → ((m : ℕ) → expected a c ≤ m → m < b → contains ns m ≡ true)
      → b ≤ expected a (receive_all packets settings parent_id c ns)
  receive_all-delivers c ns b h t arrive =
      let end = expected a (receive_all packets settings parent_id c ns) in
      elim (Bool-cases (ltb end b)) [
        | inl short ↦ absurd (
            not-Held end (receive_all packets settings parent_id c ns).recv_buffers (
              Holds-receive_all c ns end h t (elim (Bool-cases (ltb end (expected a c))) [
                | inl g ↦ inl (inl (ltb→lt end (expected a c) g))
                | inr g ↦ inr (arrive end (ground (arith, g)) (ltb→lt end b short))
              ])))
        | inr g ↦ ground (arith, g)
      ]
