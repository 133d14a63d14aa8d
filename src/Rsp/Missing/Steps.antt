-- ===== src/Rsp/Missing/Steps.antt =====
-- co/rspConnection.cpp: the steps of the loop of _handleAckRequest and its last nack.
use collage.Prelude.{
  ℕ, ◌+◌, ◌%◌, ◌≤◌, ◌<◌, ◌≡◌, sym, ap, ◌∙◌, subst, inl, inr, true, false, not, ◌||◌, Option, none,
  some, List, [], ◌∷◌, ◌++◌, arith, ltb, ◌==◌, if_true, if_false, Bool-cases, length,
}
use collage.Rsp.State.{Data, Nack, Settings, u16_mod}
use collage.Rsp.Missing.{max_nacks, split_nack, Scan, scan, hole_first, last_end}
use collage.Rsp.Missing.Asked.{
  Asked, Asked-left, Asked-right, split_nack-asks, all_nacks, all_nacks-open, all_nacks-end,
  all_nacks-keeps,
}

module _ (settings : Settings) (e r : ℕ) where
  abbrev pub nacks_of : Scan → List Nack
  nacks_of x = all_nacks settings (r % u16_mod) x

  abbrev pub scan_from : ℕ → Option ℕ → List Nack → List (Option Data) → Scan
  scan_from = scan (e % u16_mod)

  pub scan-passes :
      (k s : ℕ) (ns : List Nack) (q : List (Option Data))
      → ltb (length ns) max_nacks ≡ true
      → scan_from k (some s) ns (none ∷ q) ≡ scan_from (k + 1) (some s) ns q
  unfolding scan
  scan-passes k s ns q h = rw h

  pub scan-closes :
      (k s : ℕ) (ns : List Nack) (d : Data) (q : List (Option Data))
      → ltb (length ns) max_nacks ≡ true
      → scan_from k (some s) ns (some d ∷ q)
        ≡ scan_from
            (k + 1)
            none
            (ns ++ split_nack (record { first = s; last = (e + k) % u16_mod }))
            q
  unfolding scan
  scan-closes k s ns d q h =
      if_true _ _ h
      ∙ ap (λ l. scan_from (k + 1) none (ns ++ split_nack (record { first = s; last = l })) q)
          {x = (e % u16_mod + k) % u16_mod} (omega arith)

  pub scan-stops :
      (k s : ℕ) (ns : List Nack) (o : Option Data) (q : List (Option Data))
      → ltb (length ns) max_nacks ≡ false
      → scan_from k (some s) ns (o ∷ q) ≡ record { nacks = ns; hole = some s; at_end = false }
  unfolding scan
  scan-stops k s ns o q h = if_false _ _ h

  pub scan-keeps :
      (k m : ℕ) (hole : Option ℕ) (ns : List Nack) (q : List (Option Data))
      → Asked ns m
      → Asked (nacks_of (scan_from k hole ns q)) m
  unfolding scan
  scan-keeps k m none ns [] h = all_nacks-keeps settings (r % u16_mod) _ m h
  scan-keeps k m (some s) ns [] h = all_nacks-keeps settings (r % u16_mod) _ m h
  scan-keeps k m none ns (some d ∷ q) h = scan-keeps (k + 1) m none ns q h
  scan-keeps k m none ns (none ∷ q) h = scan-keeps (k + 1) m _ ns q h
  scan-keeps k m (some s) ns (none ∷ q) h = elim (Bool-cases (ltb (length ns) max_nacks)) [
    | inl g ↦
        subst (λ x. Asked (nacks_of x) m) (sym (scan-passes k s ns q g))
          (scan-keeps (k + 1) m (some s) ns q h)
    | inr g ↦
        subst (λ x. Asked (nacks_of x) m) (sym (scan-stops k s ns none q g))
          (all_nacks-keeps settings (r % u16_mod) _ m h)
  ]
  scan-keeps k m (some s) ns (some d ∷ q) h = elim (Bool-cases (ltb (length ns) max_nacks)) [
    | inl g ↦
        subst (λ x. Asked (nacks_of x) m) (sym (scan-closes k s ns d q g))
          (scan-keeps (k + 1) m none _ q (Asked-left ns _ m h))
    | inr g ↦
        subst (λ x. Asked (nacks_of x) m) (sym (scan-stops k s ns (some d) q g))
          (all_nacks-keeps settings (r % u16_mod) _ m h)
  ]

  -- The last nack asks for what follows the start of a hole, or the end of the last one.
  pub open-asks :
      (s m : ℕ) (x : Scan)
      → x.hole ≡ some (s % u16_mod)
      → (not x.at_end || (length x.nacks == 0)) ≡ true
      → s ≤ m
      → m ≤ r
      → r < s + u16_mod
      → Asked (nacks_of x) m
  open-asks s m x hole open' h k near =
      subst (λ ns. Asked ns m)
        (sym (
          all_nacks-open settings (r % u16_mod) x open'
          ∙ ap (λ o. x.nacks ++ split_nack (record { first = hole_first o; last = r % u16_mod }))
              hole))
        (Asked-right x.nacks _ m (split_nack-asks s r m h k near))

  pub end-asks :
      (l m : ℕ) (x : Scan)
      → (not x.at_end || (length x.nacks == 0)) ≡ false
      → last_end x.nacks ≡ l % u16_mod
      → r < l + settings.num_buffers
      → settings.num_buffers ≤ u16_mod
      → l < m
      → m ≤ r
      → Asked (nacks_of x) m
  end-asks l m x closed last near buffers h k =
      subst (λ ns. Asked ns m)
        (sym (
          all_nacks-end settings (r % u16_mod) x closed (ground (arith, last, near, buffers, h, k))
          ∙ ap (λ f. x.nacks ++ split_nack (record { first = f; last = r % u16_mod }))
              {y = (l + 1) % u16_mod} (omega (arith, last))))
        (Asked-right x.nacks _ m
          (split_nack-asks (l + 1) r m (omega (arith, h)) k (omega (arith, near, buffers))))
