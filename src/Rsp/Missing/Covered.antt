-- ===== src/Rsp/Missing/Covered.antt =====
-- co/rspConnection.cpp: the nacks of _handleAckRequest ask for every missing packet.
use collage.Prelude.{
  ℕ, suc, ◌+◌, ◌-◌, ◌%◌, ◌≤◌, ◌<◌, ◌≡◌, refl, sym, ap, ◌∙◌, subst, ◌⊎◌, inl, inr, true, false,
  Option, none, some, List, [], ◌∷◌, ◌++◌, arith, ltb, ◌==◌, if_false, Bool-cases, length,
  length-append,
}
use mathlib.Core.Bool.{false≢true}
use collage.Rsp.State.{Data, Nack, nack, Settings, Child, u16_mod, sub16}
use collage.Rsp.Receive.{slot, is_filled}
use collage.Rsp.Missing.{max_nacks, split_nack, scan, last_end, missing, has_all, answer}
use collage.Rsp.Missing.Steps.{
  nacks_of, scan_from, scan-passes, scan-closes, scan-stops, scan-keeps, open-asks, end-asks,
}
use collage.Rsp.Missing.Asked.{
  Asked, Asked-right, split_nack-asks, length-split_nack, last_end-split_nack,
}

-- Packet m is not received, when slot k of the deque, and q from there on, holds packet e + k + 1.
abbrev pub IsMissing : ℕ → ℕ → List (Option Data) → ℕ → Type 0
IsMissing e k q m = (m < e + k + 1) ⊎ (is_filled (slot (m - (e + k + 1)) q) ≡ false)

IsMissing-next :
    (e k m : ℕ) (o : Option Data) (q : List (Option Data))
    → IsMissing e k (o ∷ q) m
    → IsMissing e (k + 1) q m
IsMissing-next e k m o q (inl h) = inl (omega (arith, h))
IsMissing-next e k m o q (inr h) = elim (Bool-cases (ltb m (e + k + 2))) [
  | inl f ↦ inl (ground (arith, f))
  | inr f ↦ inr (
      subst (λ i. is_filled (slot i (o ∷ q)) ≡ false) {x = m - (e + k + 1)}
        {y = suc (m - (e + (k + 1) + 1))} (ground (arith, f)) h)
]

IsMissing-filled :
    (e k m : ℕ) (d : Data) (q : List (Option Data))
    → IsMissing e k (some d ∷ q) m
    → e + k + 1 ≤ m
    → e + (k + 1) + 1 ≤ m
IsMissing-filled e k m d q (inl h) g = omega (arith, h, g)
IsMissing-filled e k m d q (inr h) g = elim (Bool-cases (ltb (e + k + 1) m)) [
  | inl f ↦ ground (arith, f)
  | inr f ↦ absurd (
      false≢true (
        sym h
        ∙ subst (λ i. is_filled (slot i (some d ∷ q)) ≡ true) {x = 0} {y = m - (e + k + 1)}
            (ground (arith, f, g)) refl))
]

-- The last nack before number s ends with packet l.
abbrev IsClosed : ℕ → List Nack → ℕ → Type 0
IsClosed e ns s = (l : ℕ) × (last_end ns ≡ l % u16_mod) × (e ≤ l) × (l < s)

-- The hole being scanned starts with packet s; after a hole, the next one can start at s.
abbrev StartsAt : ℕ → ℕ → Option ℕ → List Nack → ℕ → Type 0
StartsAt e k none ns s = (s ≡ e + k + 1) × (0 < length ns) × IsClosed e ns s
StartsAt e k (some f) ns s =
    (f ≡ s % u16_mod) × (e ≤ s) × (s ≤ e + k) × ((length ns ≡ 0) ⊎ IsClosed e ns s)

module _ (settings : Settings) (e r : ℕ) (buffers : settings.num_buffers ≤ u16_mod)
    (near : r < e + settings.num_buffers) where
  scan-asks :
      (k m s : ℕ) (hole : Option ℕ) (ns : List Nack) (q : List (Option Data))
      → StartsAt e k hole ns s
      → IsMissing e k q m
      → s ≤ m
      → m ≤ r
      → e + k + length q ≤ r
      → Asked (nacks_of settings e r (scan_from settings e r k hole ns q)) m
  unfolding scan
  scan-asks k m s none ns [] (_, some_nacks, (l, last, le, lt)) missing' h g fits =
      end-asks settings e r l m (record { nacks = ns; hole = none; at_end = true })
        (ground (arith, some_nacks)) last (omega (arith, near, le)) buffers (omega (arith, lt, h)) g
  scan-asks k m s (some f) ns [] (e0, le, _, inl no_nacks) missing' h g fits =
      open-asks settings e r s m (record { nacks = ns; hole = some f; at_end = true }) (ap some e0)
        (ground (arith, no_nacks)) h g (omega (arith, near, buffers, le))
  scan-asks k m s (some f) ns [] (e0, le0, _, inr (l, last, le, lt)) missing' h g fits =
      elim (Bool-cases (length ns == 0)) [
        | inl no_nacks ↦
            open-asks settings e r s m (record { nacks = ns; hole = some f; at_end = true })
              (ap some e0) no_nacks h g (omega (arith, near, buffers, le0))
        | inr some_nacks ↦
            end-asks settings e r l m (record { nacks = ns; hole = some f; at_end = true })
              some_nacks last (omega (arith, near, le)) buffers (omega (arith, lt, h)) g
      ]
  scan-asks k m s none ns (some d ∷ q) (start, some_nacks, (l, last, le, lt)) missing' h g fits =
      scan-asks (k + 1) m (e + (k + 1) + 1) none ns q
        (refl, some_nacks, (l, last, le, omega (arith, lt, start)))
        (IsMissing-next e k m (some d) q missing')
        (IsMissing-filled e k m d q missing' (omega (arith, start, h))) g (omega (arith, fits))
  scan-asks k m s none ns (none ∷ q) (start, some_nacks, closed) missing' h g fits =
      scan-asks (k + 1) m s (some _) ns q
        (omega (arith, start), omega (arith, start), omega (arith, start), inr closed)
        (IsMissing-next e k m none q missing') h g (omega (arith, fits))
  scan-asks k m s (some f) ns (none ∷ q) (e0, le, le', closed) missing' h g fits =
      elim (Bool-cases (ltb (length ns) max_nacks)) [
        | inl more ↦
            subst (λ x. Asked (nacks_of settings e r x) m)
              (sym (scan-passes settings e r k f ns q more))
              (scan-asks (k + 1) m s (some f) ns q (e0, le, omega (arith, le'), closed)
                (IsMissing-next e k m none q missing') h g (omega (arith, fits)))
        | inr full ↦
            subst (λ x. Asked (nacks_of settings e r x) m)
              (sym (scan-stops settings e r k f ns none q full))
              (open-asks settings e r s m (record { nacks = ns; hole = some f; at_end = false })
                (ap some e0) refl h g (omega (arith, near, buffers, le)))
      ]
  scan-asks k m s (some f) ns (some d ∷ q) (e0, le, le', closed) missing' h g fits =
      let hole : Nack = record { first = f; last = (e + k) % u16_mod } in
      elim (Bool-cases (ltb (length ns) max_nacks)) [
        | inl more ↦
            subst (λ x. Asked (nacks_of settings e r x) m)
              (sym (scan-closes settings e r k f ns d q more))
              (elim (Bool-cases (ltb (e + k) m)) [
                | inl after ↦
                    scan-asks (k + 1) m (e + (k + 1) + 1) none (ns ++ split_nack hole) q
                      (
                        refl,
                        omega
                            (arith, length-append ns (split_nack hole), (length-split_nack hole).0),
                        (e + k, last_end-split_nack ns hole, omega arith, omega arith),
                      )
                      (IsMissing-next e k m (some d) q missing')
                      (IsMissing-filled e k m d q missing' (ground (arith, after))) g
                      (omega (arith, fits))
                | inr within ↦ scan-keeps settings e r (k + 1) m none (ns ++ split_nack hole) q (
                    Asked-right ns (split_nack hole) m (
                      subst
                        (λ x. Asked (split_nack (record { first = x; last = (e + k) % u16_mod })) m)
                        (sym e0)
                        (split_nack-asks s (e + k) m h (ground (arith, within))
                          (omega (arith, fits, near, buffers, le)))))
              ])
        | inr full ↦
            subst (λ x. Asked (nacks_of settings e r x) m)
              (sym (scan-stops settings e r k f ns (some d) q full))
              (open-asks settings e r s m (record { nacks = ns; hole = some f; at_end = false })
                (ap some e0) refl h g (omega (arith, near, buffers, le)))
      ]

nack-has_all :
    (settings : Settings) (e r : ℕ)
    → settings.num_buffers + settings.num_buffers < u16_mod
    → e ≤ r
    → r < e + settings.num_buffers
    → has_all settings (r % u16_mod) (sub16 (e % u16_mod) 1) ≡ false
unfolding has_all
nack-has_all settings e r buffers h near = ground (arith, buffers, h, near)

-- When packet e is expected, a request for the packets up to number r gets an answer that asks for
-- every packet from e to r that has not been received, if no packet after r has been received and
-- r is less than the number of buffers after e, which is less than half of the sequence numbers.
pub answer-Asked :
    (settings : Settings) (c : Child) (e r m : ℕ)
    → c.sequence ≡ e % u16_mod
    → settings.num_buffers + settings.num_buffers < u16_mod
    → r < e + settings.num_buffers
    → e + length c.recv_buffers ≤ r
    → IsMissing e 0 c.recv_buffers m
    → e ≤ m
    → m ≤ r
    → (ns : List Nack) × (answer settings c (r % u16_mod) ≡ nack c.id ns) × Asked ns m
unfolding answer missing
answer-Asked settings c e r m at buffers near fits missing' h g = (
  missing settings c (r % u16_mod),
  if_false {b = has_all settings (r % u16_mod) (sub16 c.sequence 1)} _ _
      (rw at (nack-has_all settings e r buffers (omega (arith, fits)) near)),
  rw at (
      scan-asks settings e r (omega (arith, buffers)) near 0 m e (some (e % u16_mod)) []
        c.recv_buffers (refl, omega arith, omega arith, inl refl) missing' h g
        (omega (arith, fits))),
)
