-- ===== src/Rsp/Missing/Asked.antt =====
-- co/rspConnection.cpp: which packets the nacks of _handleAckRequest ask for.
use collage.Prelude.{
  ℕ, ◌+◌, ◌%◌, ◌≤◌, ◌<◌, ◌≡◌, refl, sym, ap, subst, ◌⊎◌, inl, inr, true, false, not, ◌||◌, List, [],
  ◌∷◌, ◌++◌, arith, ltb, leb, ◌==◌, Bool-cases, length,
}
use collage.Rsp.State.{Nack, Settings, u16_mod, u16_max, sub16}
use collage.Rsp.Missing.{split_nack, Scan, last_end, split_last, hole_first, close_scan}

-- The number m, as a 16-bit word, lies in one of the nacks.
abbrev pub Asked : List Nack → ℕ → Type 0
Asked [] m = ⊥
Asked (n ∷ ns) m = ((n.first ≤ m % u16_mod) × (m % u16_mod ≤ n.last)) ⊎ Asked ns m

pub Asked-left : (ns ms : List Nack) (m : ℕ) → Asked ns m → Asked (ns ++ ms) m
Asked-left [] ms m h = elim h [ ]
Asked-left (n ∷ ns) ms m (inl h) = inl h
Asked-left (n ∷ ns) ms m (inr h) = inr (Asked-left ns ms m h)

pub Asked-right : (ns ms : List Nack) (m : ℕ) → Asked ms m → Asked (ns ++ ms) m
Asked-right [] ms m h = h
Asked-right (n ∷ ns) ms m h = inr (Asked-right ns ms m h)

-- The packets from number s to number l, less than a wrap-around apart.
pub split_nack-asks :
    (s l m : ℕ)
    → s ≤ m
    → m ≤ l
    → l < s + u16_mod
    → Asked (split_nack (record { first = s % u16_mod; last = l % u16_mod })) m
unfolding split_nack
split_nack-asks s l m h k near = elim (Bool-cases (ltb (l % u16_mod) (s % u16_mod))) [
  | inl e ↦ rw e (elim (Bool-cases (leb (s % u16_mod) (m % u16_mod))) [
    | inl f ↦ inl (ground (arith, f), omega arith)
    | inr f ↦ inr (inl (omega arith, ground (arith, h, k, near, e, f)))
  ])
  | inr e ↦ rw e (inl (ground (arith, h, k, near, e)))
]

split_nack-keeps : (n : Nack) (m : ℕ) → Asked (n ∷ []) m → Asked (split_nack n) m
unfolding split_nack
split_nack-keeps n m (inr h) = elim h [ ]
split_nack-keeps n m (inl (h, k)) =
    let right : ltb n.last n.first ≡ false = ground (arith, h, k) in rw right (inl (h, k))

split_last-keeps : (ns : List Nack) (m : ℕ) → Asked ns m → Asked (split_last ns) m
split_last-keeps [] m h = elim h [ ]
split_last-keeps (n ∷ []) m h = split_nack-keeps n m h
split_last-keeps (n ∷ n' ∷ ns) m (inl h) = inl h
split_last-keeps (n ∷ n' ∷ ns) m (inr h) = inr (split_last-keeps (n' ∷ ns) m h)

split_last-snoc : (ns : List Nack) (n : Nack) → split_last (ns ++ n ∷ []) ≡ ns ++ split_nack n
split_last-snoc [] n = refl
split_last-snoc (n' ∷ []) n = refl
split_last-snoc (n' ∷ n'' ∷ ns) n = ap (λ l. n' ∷ l) (split_last-snoc (n'' ∷ ns) n)

last_end-snoc : (ns : List Nack) (n : Nack) → last_end (ns ++ n ∷ []) ≡ n.last
last_end-snoc [] n = refl
last_end-snoc (n' ∷ []) n = refl
last_end-snoc (n' ∷ n'' ∷ ns) n = last_end-snoc (n'' ∷ ns) n

last_end-pair : (ns : List Nack) (n m : Nack) → last_end (ns ++ n ∷ m ∷ []) ≡ m.last
last_end-pair [] n m = refl
last_end-pair (n' ∷ []) n m = refl
last_end-pair (n' ∷ n'' ∷ ns) n m = last_end-pair (n'' ∷ ns) n m

pub last_end-split_nack : (ns : List Nack) (n : Nack) → last_end (ns ++ split_nack n) ≡ n.last
unfolding split_nack
last_end-split_nack ns n = elim (Bool-cases (ltb n.last n.first)) [
  | inl e ↦ rw e (
      last_end-pair ns (record { first = n.first; last = u16_max })
        (record { first = 0; last = n.last }))
  | inr e ↦ rw e (last_end-snoc ns n)
]

pub length-split_nack : (n : Nack) → (1 ≤ length (split_nack n)) × (length (split_nack n) ≤ 2)
unfolding split_nack
length-split_nack n = elim (Bool-cases (ltb n.last n.first)) [
  | inl e ↦ rw e (omega arith, omega arith)
  | inr e ↦ rw e (omega arith, omega arith)
]

-- The list of nacks that the scan and the last nack make.
abbrev pub all_nacks : Settings → ℕ → Scan → List Nack
all_nacks settings request r = split_last (close_scan settings request r)

module _ (settings : Settings) (request : ℕ) (r : Scan) where
  abbrev last_nack : ℕ → Nack
  last_nack first = record { first = first; last = request }

  -- The three ways in which the last nack is made.
  pub all_nacks-open :
      (not r.at_end || (length r.nacks == 0)) ≡ true
      → all_nacks settings request r ≡ r.nacks ++ split_nack (last_nack (hole_first r.hole))
  unfolding close_scan
  all_nacks-open h = rw h (split_last-snoc r.nacks (last_nack (hole_first r.hole)))

  pub all_nacks-end :
      (not r.at_end || (length r.nacks == 0)) ≡ false
      → ltb (sub16 request (last_end r.nacks)) settings.num_buffers ≡ true
      → all_nacks settings request r
        ≡ r.nacks ++ split_nack (last_nack ((last_end r.nacks + 1) % u16_mod))
  unfolding close_scan
  all_nacks-end h e = rw (h, e) (split_last-snoc r.nacks _)

  pub all_nacks-none :
      (not r.at_end || (length r.nacks == 0)) ≡ false
      → ltb (sub16 request (last_end r.nacks)) settings.num_buffers ≡ false
      → all_nacks settings request r ≡ split_last r.nacks
  unfolding close_scan
  all_nacks-none h e = rw (h, e)

  pub all_nacks-keeps : (m : ℕ) → Asked r.nacks m → Asked (all_nacks settings request r) m
  all_nacks-keeps m h = elim (Bool-cases (not r.at_end || (length r.nacks == 0))) [
    | inl e ↦ subst (λ ns. Asked ns m) (sym (all_nacks-open e)) (Asked-left r.nacks _ m h)
    | inr e ↦ elim (Bool-cases (ltb (sub16 request (last_end r.nacks)) settings.num_buffers)) [
      | inl f ↦ subst (λ ns. Asked ns m) (sym (all_nacks-end e f)) (Asked-left r.nacks _ m h)
      | inr f ↦ subst (λ ns. Asked ns m) (sym (all_nacks-none e f)) (split_last-keeps r.nacks m h)
    ]
  ]
