-- ===== src/Rsp/Send/Merge.antt =====
-- co/rspConnection.cpp: the merging of queued datagrams in _writeData.
use collage.Prelude.{
  ℕ, ◌+◌, ◌≤◌, ◌≡◌, refl, sym, ap, ◌∙◌, subst, inl, inr, true, false, ◌&&◌, List, [], ◌∷◌, ◌++◌,
  append_assoc, arith, ltb, leb, if_true, if_false, Bool-cases, length, flatten,
}
use collage.Rsp.Send.{merge}

merge-goes :
    (size : ℕ) (p p2 : List ℕ) (q : List (List ℕ))
    → (ltb (length p) size && leb (length p + length p2) size) ≡ true
    → merge size p (p2 ∷ q)
      ≡ (let rest = merge size (p ++ p2) q in record rest { freed = rest.freed + 1 })
unfolding merge
merge-goes size p p2 q h = if_true _ _ h

merge-stays :
    (size : ℕ) (p p2 : List ℕ) (q : List (List ℕ))
    → (ltb (length p) size && leb (length p + length p2) size) ≡ false
    → merge size p (p2 ∷ q) ≡ record { payload = p; queue = p2 ∷ q; freed = 0 }
unfolding merge
merge-stays size p p2 q h = if_false _ _ h

pub merge-flatten :
    (size : ℕ) (p : List ℕ) (q : List (List ℕ))
    → p ++ flatten q ≡ (merge size p q).payload ++ flatten (merge size p q).queue
unfolding merge
merge-flatten size p [] = refl
merge-flatten size p (p2 ∷ q) =
    elim (Bool-cases (ltb (length p) size && leb (length p + length p2) size)) [
      | inl h ↦
          sym (append_assoc p p2 (flatten q))
          ∙ merge-flatten size (p ++ p2) q
          ∙ ap (λ m. m.payload ++ flatten m.queue)
              {x = record (merge size (p ++ p2) q) { freed = (merge size (p ++ p2) q).freed + 1 }}
              (sym (merge-goes size p p2 q h))
      | inr h ↦
          ap (λ m. m.payload ++ flatten m.queue)
            {x = record { payload = p; queue = p2 ∷ q; freed = 0 }}
            (sym (merge-stays size p p2 q h))
    ]

pub merge-length :
    (size : ℕ) (p : List ℕ) (q : List (List ℕ)) → length (merge size p q).queue ≤ length q
unfolding merge
merge-length size p [] = omega arith
merge-length size p (p2 ∷ q) =
    elim (Bool-cases (ltb (length p) size && leb (length p + length p2) size)) [
      | inl h ↦
          subst (λ m. length m.queue ≤ length (p2 ∷ q)) (sym (merge-goes size p p2 q h))
            (omega (arith, merge-length size (p ++ p2) q))
      | inr h ↦
          subst (λ m. length m.queue ≤ length (p2 ∷ q)) (sym (merge-stays size p p2 q h))
            (omega arith)
    ]
