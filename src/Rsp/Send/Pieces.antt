-- ===== src/Rsp/Send/Pieces.antt =====
-- co/rspConnection.cpp: write cuts the data of the application into datagrams.
use collage.Prelude.{
  ℕ, zero, suc, ◌-◌, ◌*◌, ◌/◌, ◌≤◌, ◌<◌, ◌≡◌, refl, sym, ap, ◌∙◌, subst, inl, inr, some, List, [],
  ◌∷◌, ◌++◌, append_assoc, append-nil, arith, ltb, ◌==◌, if_true, if_false, Bool-cases, length,
  take, drop, All, flatten,
}
use native.Mathlib.Nat.{div-add-mod', mod-lt}
use collage.Rsp.State.{Settings, Listener}
use collage.Rsp.Send.{pieces, count_pieces, queue_pieces, write}

length-take-le : (n : ℕ) (bs : List ℕ) → length (take n bs) ≤ n
length-take-le zero bs = omega arith
length-take-le (suc n) [] = omega arith
length-take-le (suc n) (b ∷ bs) = omega (arith, length-take-le n bs)

length-drop : (n : ℕ) (bs : List ℕ) → length (drop n bs) ≡ length bs - n
length-drop zero bs = omega arith
length-drop (suc n) [] = omega arith
length-drop (suc n) (b ∷ bs) = omega (arith, length-drop n bs)

take-drop : (n : ℕ) (bs : List ℕ) → take n bs ++ drop n bs ≡ bs
take-drop zero bs = refl
take-drop (suc n) [] = refl
take-drop (suc n) (b ∷ bs) = ap (λ l. b ∷ l) (take-drop n bs)

pieces-flatten : (size n : ℕ) (bs : List ℕ) → length bs ≤ n * size → flatten (pieces size n bs) ≡ bs
pieces-flatten size zero [] h = refl
pieces-flatten size zero (b ∷ bs) h = absurd (omega (arith, h))
pieces-flatten size (suc n) bs h =
    ap (λ l. take size bs ++ l)
      (pieces-flatten size n (drop size bs) (omega (arith, length-drop size bs, h)))
    ∙ take-drop size bs

pieces-All : (size n : ℕ) (bs : List ℕ) → All (λ p. length p ≤ size) (pieces size n bs)
pieces-All size zero bs = tt
pieces-All size (suc n) bs = (length-take-le size bs, pieces-All size n (drop size bs))

length-pieces : (size n : ℕ) (bs : List ℕ) → length (pieces size n bs) ≡ n
length-pieces size zero bs = refl
length-pieces size (suc n) bs = ap suc (length-pieces size n (drop size bs))

count_pieces-enough : (size bytes : ℕ) → 0 < size → bytes ≤ count_pieces size bytes * size
count_pieces-enough size bytes h =
    let whole = div-add-mod' bytes size in
    let part = mod-lt bytes h in
    elim (Bool-cases ((bytes / size) * size == bytes)) [
      | inl e ↦ subst (λ n. bytes ≤ n * size) (sym (if_true _ _ e)) (ground (arith, e))
      | inr e ↦ subst (λ n. bytes ≤ n * size) (sym (if_false _ _ e)) (omega (arith, whole, part))
    ]

-- The listener with other queues.
abbrev pub queued : Listener → ℕ → List (List ℕ) → Listener
queued l n t = record l { empty_buffers = n; thread_buffers = t }

queue_pieces-some :
    (l : Listener) (ps : List (List ℕ))
    → length ps ≤ l.empty_buffers
    → queue_pieces l ps ≡ some (queued l (l.empty_buffers - length ps) (l.thread_buffers ++ ps))
unfolding queue_pieces
queue_pieces-some l [] h =
    ap (λ n. some (queued l n l.thread_buffers)) {y = l.empty_buffers - 0} (omega arith)
    ∙ ap (λ t. some (queued l (l.empty_buffers - 0) t)) (sym (append-nil l.thread_buffers))
queue_pieces-some l (p ∷ ps) h =
    if_true {b = ltb 0 l.empty_buffers} _ _ (ground (arith, h))
    ∙ queue_pieces-some (queued l (l.empty_buffers - 1) (l.thread_buffers ++ p ∷ [])) ps
        (omega (arith, h))
    ∙ ap (λ t. some (queued l (l.empty_buffers - 1 - length ps) t))
        (append_assoc l.thread_buffers (p ∷ []) ps)
    ∙ ap (λ n. some (queued l n (l.thread_buffers ++ p ∷ ps))) {x = l.empty_buffers - 1 - length ps}
        {y = l.empty_buffers - suc (length ps)} (omega arith)

-- If there are enough empty buffers, the data is queued behind what waits: in pieces that are no
-- larger than a datagram, and that give the data when they are put together again.
pub write-queues :
    (settings : Settings) (l : Listener) (bytes : List ℕ)
    → 0 < settings.payload_size
    → count_pieces settings.payload_size (length bytes) ≤ l.empty_buffers
    → (ps : List (List ℕ)) × (write settings l bytes
        ≡ some (queued l (l.empty_buffers - length ps) (l.thread_buffers ++ ps)))
      × (flatten ps ≡ bytes)
      × All (λ p. length p ≤ settings.payload_size) ps
unfolding write
write-queues settings l bytes positive room =
    let n = count_pieces settings.payload_size (length bytes) in
    let size = settings.payload_size in
    (
      pieces size n bytes,
      queue_pieces-some l (pieces size n bytes) (omega (arith, length-pieces size n bytes, room)),
      pieces-flatten size n bytes (count_pieces-enough size (length bytes) positive),
      pieces-All size n bytes,
    )
