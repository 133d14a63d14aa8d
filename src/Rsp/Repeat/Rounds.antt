-- ===== src/Rsp/Repeat/Rounds.antt =====
-- co/rspConnection.cpp: the rounds of the loop of _repeatData.
use collage.Prelude.{
  ℕ, zero, suc, ◌+◌, ◌-◌, ◌%◌, ◌≤◌, ◌<◌, ◌≡◌, refl, sym, ap, ◌∙◌, subst, ◌≢◌, ◌⊎◌, inl, inr, true,
  false, some, List, [], ◌∷◌, ◌++◌, arith, leb, ◌==◌, if_true, if_false, Bool-cases, length, All,
  low,
}
use mathlib.Core.Option.{some-injective}
use collage.Rsp.State.{Data, Nack, data_packet, Listener, u16_mod, sub16}
use collage.Rsp.Send.Finished.{IsNumbered}
use collage.Rsp.Repeat.{next_request, packet_at, packet_list, repeat_rounds, requested, repeat_data}

pub packet_at-some :
    (i : ℕ) (ds : List Data) → i < length ds → (d : Data) × (packet_at i ds ≡ some d)
packet_at-some i [] h = absurd (omega (arith, h))
packet_at-some zero (d ∷ ds) h = (d, refl)
packet_at-some (suc i) (d ∷ ds) h = packet_at-some i ds (omega (arith, h))

pub packet_at-IsNumbered :
    (b i : ℕ) (ds : List Data) (d : Data)
    → IsNumbered b ds
    → packet_at i ds ≡ some d
    → d.sequence ≡ (b + i) % u16_mod
packet_at-IsNumbered b i [] d h e = absurd (ground arith)
packet_at-IsNumbered b zero (f ∷ ds) d h e =
    subst (λ x. x.sequence ≡ (b + 0) % u16_mod) (some-injective f d e) (omega (arith, h.0))
packet_at-IsNumbered b (suc i) (f ∷ ds) d h e =
    packet_at-IsNumbered (b + 1) i ds d h.1 e ∙ omega arith

-- One round of the loop.
module _ (fuel : ℕ) (l : Listener) (n : Nack) (q : List Nack) where
  round-sends :
      l.repeat_queue ≡ n ∷ q
      → (sub16 l.sequence n.first == 0) ≡ false
      → leb (sub16 l.sequence n.first) (length l.write_buffers) ≡ true
      → repeat_rounds (suc fuel) l ≡ record l {
        repeat_queue = next_request n q;
        sent =
            l.sent
            ++ packet_list
                (packet_at (length l.write_buffers - sub16 l.sequence n.first) l.write_buffers);
      }
  unfolding repeat_rounds
  round-sends queue e f = rw (queue, repeat_rounds) (rw (e, f) refl)

  round-passes :
      l.repeat_queue ≡ n ∷ q
      → (sub16 l.sequence n.first == 0) ≡ true
      → repeat_rounds (suc fuel) l ≡ repeat_rounds fuel (record l { repeat_queue = q })
  unfolding repeat_rounds
  round-passes queue e = rw (queue, repeat_rounds) (if_true _ _ e)

  round-moves :
      l.repeat_queue ≡ n ∷ q
      → (sub16 l.sequence n.first == 0) ≡ false
      → leb (sub16 l.sequence n.first) (length l.write_buffers) ≡ false
      → repeat_rounds (suc fuel) l
        ≡ repeat_rounds fuel (record l { repeat_queue = next_request n q })
  unfolding repeat_rounds
  round-moves queue e f = rw (queue, repeat_rounds) (rw (e, f) refl)

-- The fields of a nack are 16-bit words.
abbrev pub IsWord : Nack → Type 0
IsWord n = (n.first < u16_mod) × (n.last < u16_mod)

next_request-IsWord :
    (n : Nack) (q : List Nack) → IsWord n → All IsWord q → All IsWord (next_request n q)
next_request-IsWord n q h all = elim (Bool-cases (n.first == n.last)) [
  | inl e ↦ subst (All IsWord) (sym (if_true _ _ e)) all
  | inr e ↦ subst (All IsWord) (sym (if_false _ _ e)) ((omega arith, h.1), all)
]

requested-next_request :
    (n : Nack) (q : List Nack) → IsWord n → requested (next_request n q) < requested (n ∷ q)
requested-next_request n q h = elim (Bool-cases (n.first == n.last)) [
  | inl e ↦ subst (λ r. requested r < requested (n ∷ q)) (sym (if_true _ _ e)) (omega arith)
  | inr e ↦
      let differ : n.first ≢ n.last = ground (arith, e) in
      subst (λ r. requested r < requested (n ∷ q)) (sym (if_false _ _ e))
        (omega (arith, h.0, h.1, differ))
]

-- A listener that has sent one more packet, or has no request left.
abbrev pub IsRepeated : Listener → Listener → Type 0
IsRepeated l m = (m.repeat_queue ≡ []) ⊎ ((d : Data) × (m.sent ≡ l.sent ++ data_packet d ∷ []))

rounds-empty :
    (fuel : ℕ) (l : Listener) → l.repeat_queue ≡ [] → (repeat_rounds fuel l).repeat_queue ≡ []
unfolding repeat_rounds
rounds-empty zero l queue = queue
rounds-empty (suc fuel) l queue = rw (queue, repeat_rounds) queue

IsRepeated-rounds :
    (fuel : ℕ) (l : Listener) (q : List Nack)
    → l.repeat_queue ≡ q
    → All IsWord q
    → requested q ≤ fuel
    → IsRepeated l (repeat_rounds fuel l)
IsRepeated-rounds fuel l [] queue words enough = inl (rounds-empty fuel l queue)
IsRepeated-rounds zero l (n ∷ q) queue words enough = absurd (omega (arith, enough))
IsRepeated-rounds (suc fuel) l (n ∷ q) queue words enough =
    let fewer = requested-next_request n q words.0 in
    elim (Bool-cases (sub16 l.sequence n.first == 0)) [
      | inl e ↦ subst (IsRepeated l) (sym (round-passes fuel l n q queue e)) (
          IsRepeated-rounds fuel (record l { repeat_queue = q }) q refl words.1
            (omega (arith, enough)))
      | inr e ↦ elim (Bool-cases (leb (sub16 l.sequence n.first) (length l.write_buffers))) [
        | inl f ↦
            let (d, at) =
              packet_at-some (length l.write_buffers - sub16 l.sequence n.first) l.write_buffers
                (ground (arith, e, f)) in
            subst (IsRepeated l) (sym (round-sends fuel l n q queue e f))
              (inr (d, ap (λ o. l.sent ++ packet_list o) at))
        | inr f ↦ subst (IsRepeated l) (sym (round-moves fuel l n q queue e f)) (
            IsRepeated-rounds fuel (record l { repeat_queue = next_request n q }) (next_request n q)
              refl (next_request-IsWord n q words.0 words.1) (omega (arith, enough, fewer)))
      ]
    ]

-- The rounds suffice: a packet is sent again, or no request is left.
pub repeat_data-IsRepeated :
    (l : Listener) → All IsWord l.repeat_queue → IsRepeated l (repeat_data l)
unfolding repeat_data
repeat_data-IsRepeated l words =
    IsRepeated-rounds (requested l.repeat_queue) (record l { timeouts = 0 }) l.repeat_queue refl
      words (omega arith)

-- A request that starts with packet m of the kept ones, of which the first is packet b, has that
-- packet sent again, under its number, and then names the packets after it.
pub repeat_data-sends :
    (l : Listener) (n : Nack) (q : List Nack) (b m : ℕ)
    → l.repeat_queue ≡ n ∷ q
    → IsNumbered b l.write_buffers
    → l.sequence ≡ (b + length l.write_buffers) % u16_mod
    → length l.write_buffers < u16_mod
    → n.first ≡ m % u16_mod
    → b ≤ m
    → m < b + length l.write_buffers
    → (d : Data) × (packet_at (m - b) l.write_buffers ≡ some d)
      × (d.sequence ≡ m % u16_mod)
      × (repeat_data l ≡ record l {
        timeouts = 0;
        repeat_queue = next_request n q;
        sent = l.sent ++ data_packet d ∷ [];
      })
unfolding repeat_data
repeat_data-sends l n q b m queue numbered at room first low high =
    let distance : sub16 l.sequence n.first ≡ (b + length l.write_buffers) - m =
      omega (arith, at, first, low, high, room) in
    let (d, found) = packet_at-some (m - b) l.write_buffers (omega (arith, low, high)) in
    let place : length l.write_buffers - sub16 l.sequence n.first ≡ m - b =
      omega (arith, distance, low, high) in
    (
      d,
      found,
      packet_at-IsNumbered b (m - b) l.write_buffers d numbered found ∙ omega (arith, low),
      ap (λ f. repeat_rounds f (record l { timeouts = 0 })) {x = requested l.repeat_queue}
            {y = suc (sub16 n.last n.first + requested q)} (ap requested queue ∙ omega arith)
          ∙ round-sends (sub16 n.last n.first + requested q) (record l { timeouts = 0 }) n q queue
              (ground (arith, distance, high)) (ground (arith, distance, low, high))
          ∙ ap
              (λ o. record l {
                timeouts = 0;
                repeat_queue = next_request n q;
                sent = l.sent ++ packet_list o;
              })
              (ap (λ i. packet_at i l.write_buffers) place ∙ found),
    )
