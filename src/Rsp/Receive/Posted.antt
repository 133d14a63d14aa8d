-- ===== src/Rsp/Receive/Posted.antt =====
-- co/rspConnection.cpp: _handleData on packets that arrive in any order, more than once or never.
use collage.Prelude.{
  ℕ, ◌+◌, ◌-◌, ◌%◌, ◌<◌, ◌≡◌, sym, ap, ◌∙◌, subst, inl, inr, true, false, none, some, [], arith,
  ◌==◌, Bool-cases, length,
}
use collage.Rsp.State.{Data, Settings, Child, u16_mod, sub16}
use collage.Rsp.Receive.{
  new_data_buffer, no_data_buffer, is_outside, receive_in_order, receive_early, receive_data,
}
use collage.Rsp.Receive.InOrder.{
  IsPending, range, expected, IsReader, IsReader-receive_in_order, Advances,
  Advances-no_data_buffer, Advances-receive_early, new_data_buffer-cases,
}

-- The packets that can arrive while packet e is expected: no more than the buffers of the group can
-- lie between the writer and its slowest reader, and one wrap-around between old and new packets.
abbrev pub IsInWindow : ℕ → ℕ → ℕ → Type 0
IsInWindow num_buffers e n = (e + num_buffers + 1 < n + u16_mod) × (n < e + u16_mod)

pub same-number : (b e n : ℕ) → IsInWindow b e n → e % u16_mod ≡ n % u16_mod → n ≡ e
same-number b e n h g = omega (arith, h.0, h.1)

inside-early :
    (b e n : ℕ)
    → IsInWindow b e n
    → (e % u16_mod == n % u16_mod) ≡ false
    → is_outside b (e % u16_mod) (n % u16_mod) ≡ false
    → e < n
unfolding is_outside
inside-early b e n h g f = ground (arith, h.0, h.1)

size-early : (b e n : ℕ) → IsInWindow b e n → e < n → sub16 (n % u16_mod) (e % u16_mod) ≡ n - e
size-early b e n h g = omega (arith, h.0, h.1)

-- The branches of _handleData.
module _ (settings : Settings) (parent_id : ℕ) (c : Child) (d : Data) where
  pub receive_data-none :
      (c.sequence == d.sequence) ≡ true
      → new_data_buffer c ≡ none
      → (receive_data settings parent_id c d).child ≡ no_data_buffer c
  unfolding receive_data
  receive_data-none e f = rw (e, f)

  pub receive_data-expected :
      (e : Child)
      → (c.sequence == d.sequence) ≡ true
      → new_data_buffer c ≡ some e
      → receive_data settings parent_id c d ≡ receive_in_order settings parent_id e d
  unfolding receive_data
  receive_data-expected e same f = rw (same, f)

  pub receive_data-outside :
      (c.sequence == d.sequence) ≡ false
      → is_outside settings.num_buffers c.sequence d.sequence ≡ true
      → (receive_data settings parent_id c d).child ≡ c
  unfolding receive_data
  receive_data-outside e f = rw (e, f)

  pub receive_data-inside :
      (c.sequence == d.sequence) ≡ false
      → is_outside settings.num_buffers c.sequence d.sequence ≡ false
      → receive_data settings parent_id c d ≡ receive_early (sub16 d.sequence c.sequence) c d
  unfolding receive_data
  receive_data-inside e f = rw (e, f)

-- A packet that arrives within the window keeps what the connection has posted in order.
module _ (packets : ℕ → Data) (settings : Settings) (parent_id a : ℕ) where
  Advances-expected :
      (c : Child) (n : ℕ)
      → IsReader packets a c
      → n ≡ expected a c
      → (c.sequence == (packets n).sequence) ≡ true
      → Advances packets a c (receive_data settings parent_id c (packets n)).child
  Advances-expected c n h e same = elim (new_data_buffer-cases c) [
    | inl f ↦
        subst (Advances packets a c)
          (sym (receive_data-none settings parent_id c (packets n) same f))
          (Advances-no_data_buffer packets a c h)
    | inr f ↦
        let taken = record c { free_buffers = c.free_buffers - 1 } in
        let (reader, longer) =
          IsReader-receive_in_order packets settings parent_id a taken (packets n)
            (record { sequence = h.sequence; posted = h.posted; pending = h.pending })
            (ap packets e) in
        subst (λ r. Advances packets a c r.child)
          (sym (receive_data-expected settings parent_id c (packets n) taken same f))
          (reader, omega (arith, longer))
  ]

  pub early-size :
      (c : Child) (n : ℕ)
      → IsReader packets a c
      → IsInWindow settings.num_buffers (expected a c) n
      → (packets n).sequence ≡ n % u16_mod
      → (c.sequence == (packets n).sequence) ≡ false
      → is_outside settings.num_buffers c.sequence (packets n).sequence ≡ false
      → expected a c < n × (sub16 (packets n).sequence c.sequence ≡ n - expected a c)
  early-size c n h window numbered e f =
      let late =
        inside-early settings.num_buffers (expected a c) n window
          (rw (sym h.sequence, sym numbered) e) (rw (sym h.sequence, sym numbered) f) in
      (
        late,
        rw (h.sequence, numbered) (size-early settings.num_buffers (expected a c) n window late),
      )

  pub Advances-receive_data :
      (c : Child) (n : ℕ)
      → IsReader packets a c
      → IsInWindow settings.num_buffers (expected a c) n
      → (packets n).sequence ≡ n % u16_mod
      → Advances packets a c (receive_data settings parent_id c (packets n)).child
  Advances-receive_data c n h window numbered =
      elim (Bool-cases (c.sequence == (packets n).sequence)) [
        | inl e ↦
            Advances-expected c n h
              (same-number settings.num_buffers (expected a c) n window
                (ground (arith, e, h.sequence, numbered)))
              e
        | inr e ↦
            elim (Bool-cases (is_outside settings.num_buffers c.sequence (packets n).sequence)) [
              | inl f ↦
                  subst (Advances packets a c)
                    (sym (receive_data-outside settings parent_id c (packets n) e f))
                    (h, omega arith)
              | inr f ↦
                  let (early, size) = early-size c n h window numbered e f in
                  subst (Advances packets a c)
                    (ap (λ r. r.child)
                      (sym (receive_data-inside settings parent_id c (packets n) e f)))
                    (Advances-receive_early packets a (sub16 (packets n).sequence c.sequence) c
                      (packets n) h (omega (arith, early, size))
                      (ap packets (omega (arith, early, size))))
            ]
      ]

  -- A child connection that has been added while packet a was the next one, after packets have
  -- arrived that the window allows, and after the application has given buffers back.
  pub data History : Child → Type 0 where
    added :
        (c : Child)
        → c.sequence ≡ a % u16_mod
        → c.app_buffers ≡ []
        → c.recv_buffers ≡ []
        → History c
    arrives :
        (c : Child) (n : ℕ)
        → History c
        → IsInWindow settings.num_buffers (expected a c) n
        → (packets n).sequence ≡ n % u16_mod
        → History (receive_data settings parent_id c (packets n)).child
    gives_back : (c : Child) (n : ℕ) → History c → History (record c { free_buffers = n })

  pub History-IsReader : (c : Child) → History c → IsReader packets a c
  History-IsReader c (added _ sequence posted pending) =
      let none_yet : length c.app_buffers ≡ 0 = ap length posted in
      record {
        sequence = omega (arith, sequence, none_yet);
        posted = posted ∙ ap (range packets a) (sym none_yet);
        pending = subst (IsPending packets (expected a c + 1)) (sym pending) tt;
      }
  History-IsReader _ (arrives c n h window numbered) =
      (Advances-receive_data c n (History-IsReader c h) window numbered).0
  History-IsReader _ (gives_back c n h) =
      let k = History-IsReader c h in
      record { sequence = k.sequence; posted = k.posted; pending = k.pending }

  -- As long as each packet of the writer that arrives is less than 2^16 packets ahead of the one that
  -- is expected then, and behind it by less than 2^16 minus one and the number of buffers, the
  -- application gets the packets from number a on, each once and in the order of their numbers,
  -- whichever arrive, in any order, more than once or never.
  pub posted_in_order :
      (c : Child) → History c → c.app_buffers ≡ range packets a (length c.app_buffers)
  posted_in_order c h = (History-IsReader c h).posted
