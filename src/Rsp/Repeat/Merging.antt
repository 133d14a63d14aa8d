-- ===== src/Rsp/Repeat/Merging.antt =====
-- co/rspConnection.cpp: _addRepeat loses no request.
use collage.Prelude.{
  ℕ, ◌%◌, ◌≤◌, ◌≡◌, sym, subst, ◌⊎◌, inl, inr, ◌&&◌, List, [], ◌∷◌, arith, if_true, if_false,
  Bool-cases,
}
use collage.Rsp.State.{Nack, u16_mod}
use collage.Rsp.Missing.Asked.{Asked}
use collage.Rsp.Repeat.{overlaps, widens, widen, add_nack, add_repeat}

Asked-widen :
    (n old : Nack) (m : ℕ)
    → ((n.first ≤ m % u16_mod) × (m % u16_mod ≤ n.last))
      ⊎ ((old.first ≤ m % u16_mod) × (m % u16_mod ≤ old.last))
    → ((widen n old).first ≤ m % u16_mod) × (m % u16_mod ≤ (widen n old).last)
Asked-widen n old m (inl (h, g)) = (ground (arith, h, g), ground (arith, h, g))
Asked-widen n old m (inr (h, g)) = (ground (arith, h, g), ground (arith, h, g))

add_nack-cases :
    (n old : Nack) (q : List Nack)
    → (add_nack n (old ∷ q) ≡ widen n old ∷ q) ⊎ (add_nack n (old ∷ q) ≡ old ∷ add_nack n q)
unfolding add_nack
add_nack-cases n old q = elim (Bool-cases (overlaps n old && widens n old)) [
  | inl e ↦ inl (if_true _ _ e)
  | inr e ↦ inr (if_false _ _ e)
]

Asked-add_nack : (n : Nack) (q : List Nack) (m : ℕ) → Asked (n ∷ q) m → Asked (add_nack n q) m
unfolding add_nack
Asked-add_nack n [] m h = h
Asked-add_nack n (old ∷ q) m (inl h) = elim (add_nack-cases n old q) [
  | inl e ↦ subst (λ l. Asked l m) (sym e) (inl (Asked-widen n old m (inl h)))
  | inr e ↦ subst (λ l. Asked l m) (sym e) (inr (Asked-add_nack n q m (inl h)))
]
Asked-add_nack n (old ∷ q) m (inr (inl h)) = elim (add_nack-cases n old q) [
  | inl e ↦ subst (λ l. Asked l m) (sym e) (inl (Asked-widen n old m (inr h)))
  | inr e ↦ subst (λ l. Asked l m) (sym e) (inl h)
]
Asked-add_nack n (old ∷ q) m (inr (inr h)) = elim (add_nack-cases n old q) [
  | inl e ↦ subst (λ l. Asked l m) (sym e) (inr h)
  | inr e ↦ subst (λ l. Asked l m) (sym e) (inr (Asked-add_nack n q m (inr h)))
]

-- The queue of repeat requests asks for every packet for which the nacks or the queue before asked.
pub add_repeat-Asked :
    (ns q : List Nack) (m : ℕ) → Asked ns m ⊎ Asked q m → Asked (add_repeat ns q) m
unfolding add_repeat
add_repeat-Asked [] q m (inl h) = elim h [ ]
add_repeat-Asked [] q m (inr h) = h
add_repeat-Asked (n ∷ ns) q m (inl (inl h)) =
    add_repeat-Asked ns (add_nack n q) m (inr (Asked-add_nack n q m (inl h)))
add_repeat-Asked (n ∷ ns) q m (inl (inr h)) = add_repeat-Asked ns (add_nack n q) m (inl h)
add_repeat-Asked (n ∷ ns) q m (inr h) =
    add_repeat-Asked ns (add_nack n q) m (inr (Asked-add_nack n q m (inr h)))
