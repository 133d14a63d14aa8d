-- ===== src/Rsp/Missing/Bounds.antt =====
-- co/rspConnection.cpp: the array of nacks of _handleAckRequest is large enough.
use collage.Prelude.{
  ℕ, ◌+◌, ◌/◌, ◌%◌, ◌≤◌, ◌<◌, ◌≡◌, refl, sym, ap, ◌∙◌, subst, ◌⊎◌, inl, inr, true, false, not, ◌||◌,
  Option, none, some, List, [], ◌∷◌, ◌++◌, arith, ltb, ◌==◌, ltb→lt, Bool-cases, length,
  length-append,
}
use collage.Rsp.State.{Data, Nack, Settings, Child, u16_mod, sub16}
use collage.Rsp.Missing.{
  max_nacks, split_nack, Scan, scan, hole_first, last_end, split_last, missing,
}
use collage.Rsp.Missing.Asked.{
  length-split_nack, last_end-split_nack, all_nacks-open, all_nacks-end, all_nacks-none,
}
use collage.Rsp.Missing.Steps.{nacks_of, scan_from, scan-passes, scan-closes, scan-stops}

-- Two packets that no wrap-around separates.
split_nack-one :
    (s l : ℕ)
    → s ≤ l
    → s / u16_mod ≡ l / u16_mod
    → length (split_nack (record { first = s % u16_mod; last = l % u16_mod })) ≡ 1
unfolding split_nack
split_nack-one s l h e =
    let right : ltb (l % u16_mod) (s % u16_mod) ≡ false = ground (arith, h, e) in rw right refl

length-split_last : (ns : List Nack) → length (split_last ns) ≤ length ns + 1
length-split_last [] = omega arith
length-split_last (n ∷ []) = omega (arith, (length-split_nack n).1)
length-split_last (n ∷ m ∷ ns) = omega (arith, length-split_last (m ∷ ns))

module _ (settings : Settings) (e r : ℕ) where
  -- The nacks so far are few, or no wrap-around lies after the last of them.
  abbrev IsFew : List Nack → ℕ → Type 0
  IsFew ns s =
      (length ns ≤ 298)
      ⊎ ((length ns ≤ 299)
          × ((l : ℕ) × (last_end ns ≡ l % u16_mod)
              × (l < s)
              × (l < r)
              × (l / u16_mod ≡ r / u16_mod)))

  abbrev Starts : ℕ → Option ℕ → List Nack → ℕ → Type 0
  Starts k none ns s = (s ≡ e + k + 1) × (0 < length ns)
  Starts k (some f) ns s = (f ≡ s % u16_mod) × (e ≤ s) × (s ≤ e + k)

  open-length :
      (s : ℕ) (x : Scan)
      → x.hole ≡ some (s % u16_mod)
      → (not x.at_end || (length x.nacks == 0)) ≡ true
      → s ≤ r
      → IsFew x.nacks s
      → length (nacks_of settings e r x) ≤ 300
  open-length s x hole test h few =
      let hole_nack : Nack = record { first = s % u16_mod; last = r % u16_mod } in
      let all : nacks_of settings e r x ≡ x.nacks ++ split_nack hole_nack =
        all_nacks-open settings (r % u16_mod) x test
        ∙ ap (λ o. x.nacks ++ split_nack (record { first = hole_first o; last = r % u16_mod }))
            hole in
      let len = ap length all ∙ length-append x.nacks (split_nack hole_nack) in
      elim few [
        | inl f ↦ omega (arith, len, f, (length-split_nack hole_nack).1)
        | inr (f, (l, last, lt, below, same)) ↦
            let one = split_nack-one s r h (omega (arith, lt, h, same)) in
            omega (arith, len, f, one)
      ]

  end-length :
      (s : ℕ) (x : Scan)
      → (not x.at_end || (length x.nacks == 0)) ≡ false
      → IsFew x.nacks s
      → length (nacks_of settings e r x) ≤ 300
  end-length s x test few =
      elim (Bool-cases (ltb (sub16 (r % u16_mod) (last_end x.nacks)) settings.num_buffers)) [
        | inl near ↦
            let hole_nack : Nack = record {
              first = (last_end x.nacks + 1) % u16_mod;
              last = r % u16_mod;
            } in
            let len =
              ap length (all_nacks-end settings (r % u16_mod) x test near)
              ∙ length-append x.nacks (split_nack hole_nack) in
            elim few [
              | inl f ↦ omega (arith, len, f, (length-split_nack hole_nack).1)
              | inr (f, (l, last, lt, below, same)) ↦
                  let one =
                    split_nack-one (l + 1) r (omega (arith, below)) (omega (arith, below, same)) in
                  let begin : (last_end x.nacks + 1) % u16_mod ≡ (l + 1) % u16_mod =
                    omega (arith, last) in
                  omega (
                    arith,
                    len,
                    f,
                    one,
                    ap (λ b. length (split_nack (record { first = b; last = r % u16_mod }))) begin,
                  )
            ]
        | inr far ↦
            let len = ap length (all_nacks-none settings (r % u16_mod) x test far) in
            elim few [
              | inl f ↦ omega (arith, len, f, length-split_last x.nacks)
              | inr (f, _) ↦ omega (arith, len, f, length-split_last x.nacks)
            ]
      ]

  any-length :
      (s : ℕ) (x : Scan)
      → x.hole ≡ some (s % u16_mod)
      → s ≤ r
      → IsFew x.nacks s
      → length (nacks_of settings e r x) ≤ 300
  any-length s x hole h few = elim (Bool-cases (not x.at_end || (length x.nacks == 0))) [
    | inl test ↦ open-length s x hole test h few
    | inr test ↦ end-length s x test few
  ]

  IsFew-grows : (s t : ℕ) (ns : List Nack) → IsFew ns s → s ≤ t → IsFew ns t
  IsFew-grows s t ns (inl h) g = inl h
  IsFew-grows s t ns (inr (h, (l, last, lt, below, same))) g =
      inr (h, (l, last, omega (arith, lt, g), below, same))

  -- A hole from s to l is closed.
  IsFew-split_nack :
      (s l : ℕ) (ns : List Nack)
      → IsFew ns s
      → length ns < 298
      → s ≤ l
      → l < r
      → r < s + u16_mod
      → IsFew (ns ++ split_nack (record { first = s % u16_mod; last = l % u16_mod })) (l + 2)
  IsFew-split_nack s l ns few below h lt near =
      let hole : Nack = record { first = s % u16_mod; last = l % u16_mod } in
      let len = length-append ns (split_nack hole) in
      elim (Bool-cases ((s / u16_mod) == (l / u16_mod))) [
        | inl same ↦
            let one = split_nack-one s l h (ground (arith, same)) in
            inl (omega (arith, len, one, below))
        | inr wraps ↦ inr (
          omega (arith, len, below, (length-split_nack hole).1),
          (l, last_end-split_nack ns hole, omega arith, lt, ground (arith, wraps, h, lt, near)),
        )
      ]

  module _ (near : r < e + u16_mod) where
    scan-length :
        (k s : ℕ) (hole : Option ℕ) (ns : List Nack) (q : List (Option Data))
        → Starts k hole ns s
        → IsFew ns s
        → e + k + length q ≤ r
        → length (nacks_of settings e r (scan_from settings e r k hole ns q)) ≤ 300
    unfolding scan
    scan-length k s none ns [] (at, some_nacks) few fits =
        end-length s (record { nacks = ns; hole = none; at_end = true })
          (ground (arith, some_nacks)) few
    scan-length k s (some f) ns [] (at, le, le') few fits =
        any-length s (record { nacks = ns; hole = some f; at_end = true }) (ap some at)
          (omega (arith, le', fits)) few
    scan-length k s none ns (some d ∷ q) (at, some_nacks) few fits =
        scan-length (k + 1) (e + (k + 1) + 1) none ns q (refl, some_nacks)
          (IsFew-grows s (e + (k + 1) + 1) ns few (omega (arith, at))) (omega (arith, fits))
    scan-length k s none ns (none ∷ q) (at, _) few fits =
        scan-length (k + 1) s (some _) ns q
          (omega (arith, at), omega (arith, at), omega (arith, at)) few (omega (arith, fits))
    scan-length k s (some f) ns (none ∷ q) (at, le, le') few fits =
        elim (Bool-cases (ltb (length ns) max_nacks)) [
          | inl more ↦
              subst (λ x. length (nacks_of settings e r x) ≤ 300)
                (sym (scan-passes settings e r k f ns q more))
                (scan-length (k + 1) s (some f) ns q (at, le, omega (arith, le')) few
                  (omega (arith, fits)))
          | inr full ↦
              subst (λ x. length (nacks_of settings e r x) ≤ 300)
                (sym (scan-stops settings e r k f ns none q full))
                (any-length s (record { nacks = ns; hole = some f; at_end = false }) (ap some at)
                  (omega (arith, le', fits)) few)
        ]
    scan-length k s (some f) ns (some d ∷ q) (at, le, le') few fits =
        let hole_nack : Nack = record { first = f; last = (e + k) % u16_mod } in
        elim (Bool-cases (ltb (length ns) max_nacks)) [
          | inl more ↦
              subst (λ x. length (nacks_of settings e r x) ≤ 300)
                (sym (scan-closes settings e r k f ns d q more))
                (scan-length (k + 1) (e + (k + 1) + 1) none (ns ++ split_nack hole_nack) q
                  (
                    refl,
                    omega (
                      arith,
                      length-append ns (split_nack hole_nack),
                      (length-split_nack hole_nack).0,
                    ),
                  )
                  (subst
                    (λ x.
                      IsFew (ns ++ split_nack (record { first = x; last = (e + k) % u16_mod }))
                        (e + (k + 1) + 1))
                    (sym at)
                    (IsFew-grows (e + k + 2) (e + (k + 1) + 1) _
                      (IsFew-split_nack s (e + k) ns few (ltb→lt (length ns) 298 more) le'
                        (omega (arith, fits)) (omega (arith, near, le)))
                      (omega arith)))
                  (omega (arith, fits)))
          | inr full ↦
              subst (λ x. length (nacks_of settings e r x) ≤ 300)
                (sym (scan-stops settings e r k f ns (some d) q full))
                (any-length s (record { nacks = ns; hole = some f; at_end = false }) (ap some at)
                  (omega (arith, le', fits)) few)
        ]

-- When packet e is expected, a request for the packets up to number r makes at most as many nacks as
-- the array holds, if no packet after r has been received and the numbers from e to r are not
-- more than there are sequence numbers.
pub missing-bound :
    (settings : Settings) (c : Child) (e r : ℕ)
    → c.sequence ≡ e % u16_mod
    → r < e + u16_mod
    → e + length c.recv_buffers ≤ r
    → length (missing settings c (r % u16_mod)) ≤ 300
unfolding missing
missing-bound settings c e r at near fits = rw at (
    scan-length settings e r near 0 e (some (e % u16_mod)) [] c.recv_buffers
      (refl, omega arith, omega arith) (inl (omega arith)) (omega (arith, fits)))
