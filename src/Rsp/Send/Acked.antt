-- ===== src/Rsp/Send/Acked.antt =====
-- co/rspConnection.cpp: the least acknowledged number of _handleAck, and the children.
use collage.Prelude.{
  ℕ, ◌+◌, ◌-◌, ◌%◌, ◌≤◌, ◌<◌, ◌≡◌, refl, sym, ap, ◌∙◌, subst, ◌≢◌, ◌⊎◌, inl, inr, true, false, not,
  ◌&&◌, some, List, [], ◌∷◌, arith, ltb, leb, ◌==◌, if◌then◌else◌, if_true, if_false, ltb→lt,
  leb→le, Bool-cases, All, low,
}
use mathlib.Core.Option.{some-injective}
use collage.Rsp.State.{Settings, Child, find_connection, put_connection, u16_mod, sub16}
use collage.Rsp.Send.{least_acked}

-- The sequence number of the last of the first n packets.
abbrev pub last_of : ℕ → ℕ
last_of n = sub16 (n % u16_mod) 1

pub find-id : (id : ℕ) (cs : List Child) (c : Child) → find_connection id cs ≡ some c → c.id ≡ id
find-id id [] c h = absurd (ground arith)
find-id id (d ∷ cs) c h = elim (Bool-cases (d.id == id)) [
  | inl e ↦
      subst (λ x. x.id ≡ id) (some-injective d c (sym (if_true _ _ e) ∙ h)) (ground (arith, e))
  | inr e ↦ find-id id cs c (sym (if_false _ _ e) ∙ h)
]

pub find-All :
    (P : Child → Type 0) (id : ℕ) (cs : List Child) (c : Child)
    → All P cs
    → find_connection id cs ≡ some c
    → P c
find-All P id [] c all h = absurd (ground arith)
find-All P id (d ∷ cs) c all h = elim (Bool-cases (d.id == id)) [
  | inl e ↦ subst P (some-injective d c (sym (if_true _ _ e) ∙ h)) all.0
  | inr e ↦ find-All P id cs c all.1 (sym (if_false _ _ e) ∙ h)
]

pub put-All :
    (P : Child → Type 0) (c : Child) (cs : List Child)
    → All P cs
    → P c
    → All P (put_connection c cs)
put-All P c [] all h = tt
put-All P c (d ∷ cs) all h = elim (Bool-cases (d.id == c.id)) [
  | inl e ↦ subst (All P) (sym (if_true _ _ e)) (h, all.1)
  | inr e ↦ subst (All P) (sym (if_false _ _ e)) (all.0, put-All P c cs all.1 h)
]

pub find-put_same :
    (c d : Child) (cs : List Child)
    → find_connection c.id cs ≡ some d
    → find_connection c.id (put_connection c cs) ≡ some c
find-put_same c d [] h = absurd (ground arith)
find-put_same c d (e ∷ cs) h = elim (Bool-cases (e.id == c.id)) [
  | inl t ↦
      ap (find_connection c.id) (if_true _ _ t) ∙ if_true {b = c.id == c.id} _ _ (ground arith)
  | inr t ↦
      ap (find_connection c.id) (if_false _ _ t)
      ∙ if_false _ _ t
      ∙ find-put_same c d cs (sym (if_false _ _ t) ∙ h)
]

pub find-put_other :
    (id : ℕ) (c : Child) (cs : List Child)
    → c.id ≢ id
    → find_connection id (put_connection c cs) ≡ find_connection id cs
find-put_other id c [] h = refl
find-put_other id c (e ∷ cs) h = elim (Bool-cases (e.id == c.id)) [
  | inl t ↦
      let c_not : (c.id == id) ≡ false = ground (arith, h) in
      let e_not : (e.id == id) ≡ false = ground (arith, h, t) in
      ap (find_connection id) (if_true _ _ t) ∙ if_false _ _ c_not ∙ sym (if_false _ _ e_not)
  | inr t ↦
      ap (find_connection id) (if_false _ _ t)
      ∙ ap (λ o. if e.id == id then some e else o) (find-put_other id c cs h)
]

-- Each other child has acknowledged between b and n packets, and no more than it has received.
abbrev pub HasAcked : (ℕ → ℕ) → ℕ → ℕ → ℕ → Child → Type 0
HasAcked received id b n c =
    (c.id ≡ id) ⊎ ((a : ℕ) × (c.acked ≡ last_of a) × (b ≤ a) × (a ≤ n) × (a ≤ received c.id))

HasAcked-weaken :
    (received : ℕ → ℕ) (id k m n : ℕ) (c : Child)
    → m ≤ k
    → HasAcked received id k n c
    → HasAcked received id m n c
HasAcked-weaken received id k m n c h (inl own) = inl own
HasAcked-weaken received id k m n c h (inr (a, at, le, le', le'')) =
    inr (a, at, omega (arith, h, le), le', le'')

-- Some other child has acknowledged this number last.
abbrev pub AnyAcked : ℕ → ℕ → List Child → Type 0
AnyAcked id x [] = ⊥
AnyAcked id x (c ∷ cs) = ((c.id ≢ id) × (c.acked ≡ x)) ⊎ AnyAcked id x cs

-- How far apart the numbers of two packets are.
pub distance-ahead : (k a : ℕ) → k ≤ a → a < k + u16_mod → sub16 (last_of a) (last_of k) ≡ a - k
distance-ahead k a h g = omega (arith, h, g)

distance-behind :
    (k a : ℕ) → a < k → k < a + u16_mod → sub16 (last_of a) (last_of k) ≡ (a + u16_mod) - k
distance-behind k a h g = omega (arith, h, g)

module _ (q b n k a : ℕ) (buffers : q + q < u16_mod) (near : n ≤ b + q) (h : b ≤ k) (g : k ≤ n)
    (h' : b ≤ a) (g' : a ≤ n) where
  ahead-le : ltb q (sub16 (last_of a) (last_of k)) ≡ true → a ≤ k
  ahead-le t = elim (Bool-cases (leb k a)) [
    | inl e ↦
        let d = distance-ahead k a (leb→le k a e) (omega (arith, h, g', near, buffers)) in
        ground (arith, t, d, h, g, h', g', near, buffers)
    | inr e ↦ ground (arith, e)
  ]

  behind-le : ltb q (sub16 (last_of a) (last_of k)) ≡ false → k ≤ a
  behind-le t = elim (Bool-cases (ltb a k)) [
    | inl e ↦
        let d = distance-behind k a (ltb→lt a k e) (omega (arith, h', g, near, buffers)) in
        ground (arith, t, d, h, g, h', g', near, buffers)
    | inr e ↦ ground (arith, e)
  ]

module _ (settings : Settings) (received : ℕ → ℕ) (id b n : ℕ) where
  -- The loop's variable after one child.
  abbrev step : ℕ → Child → ℕ
  step acked c =
      if not (c.id == id) && ltb settings.num_buffers (sub16 c.acked acked) then c.acked else acked

  step-le :
      (k : ℕ) (c : Child)
      → settings.num_buffers + settings.num_buffers < u16_mod
      → n ≤ b + settings.num_buffers
      → b ≤ k
      → k ≤ n
      → HasAcked received id b n c
      → (m : ℕ) × (step (last_of k) c ≡ last_of m) × (b ≤ m) × (m ≤ k) × HasAcked received id m n c
  step-le k c buffers near h g (inl own) = (
    k,
    if_false {b = not (c.id == id) && ltb settings.num_buffers (sub16 c.acked (last_of k))} _ _
        (ground (arith, own)),
    h,
    omega arith,
    inl own,
  )
  step-le k c buffers near h g (inr (a, at, le, le', le'')) =
      elim (Bool-cases (not (c.id == id) && ltb settings.num_buffers (sub16 c.acked (last_of k)))) [
        | inl t ↦ (
          a,
          if_true _ _ t ∙ at,
          le,
          ahead-le settings.num_buffers b n k a buffers near h g le le' (ground (arith, t, at)),
          inr (a, at, omega arith, le', le''),
        )
        | inr t ↦ (
          k,
          if_false _ _ t,
          h,
          omega arith,
          elim (Bool-cases (c.id == id)) [
            | inl own ↦ inl (ground (arith, own))
            | inr other ↦ inr (
              a,
              at,
              behind-le settings.num_buffers b n k a buffers near h g le le'
                  (ground (arith, t, at, other)),
              le',
              le'',
            )
          ],
        )
      ]

  pub least_acked-le :
      (k : ℕ) (cs : List Child)
      → settings.num_buffers + settings.num_buffers < u16_mod
      → n ≤ b + settings.num_buffers
      → b ≤ k
      → k ≤ n
      → All (HasAcked received id b n) cs
      → (m : ℕ) × (least_acked settings id (last_of k) cs ≡ last_of m)
        × (b ≤ m)
        × (m ≤ k)
        × All (HasAcked received id m n) cs
  unfolding least_acked
  least_acked-le k [] buffers near h g all = (k, refl, h, omega arith, tt)
  least_acked-le k (c ∷ cs) buffers near h g (one, all) =
      let (k', e, le, le', r) = step-le k c buffers near h g one in
      let (m, e', low, high, rs) =
        least_acked-le k' cs buffers near le (omega (arith, le', g)) all in
      (
        m,
        ap (λ x. least_acked settings id x cs) e ∙ e',
        low,
        omega (arith, high, le'),
        (HasAcked-weaken received id k' m n c high r, rs),
      )

-- The least number, from x on, is `acked` or that of a child.
abbrev IsOneOf : Settings → ℕ → ℕ → Child → List Child → ℕ → Type 0
IsOneOf settings id acked c cs x =
    (least_acked settings id x cs ≡ acked) ⊎ AnyAcked id (least_acked settings id x cs) (c ∷ cs)

pub least_acked-AnyAcked :
    (settings : Settings) (id acked : ℕ) (cs : List Child)
    → (least_acked settings id acked cs ≡ acked) ⊎ AnyAcked id (least_acked settings id acked cs) cs
unfolding least_acked
least_acked-AnyAcked settings id acked [] = inl refl
least_acked-AnyAcked settings id acked (c ∷ cs) =
    let of_child = least_acked-AnyAcked settings id c.acked cs in
    let of_others = least_acked-AnyAcked settings id acked cs in
    elim (Bool-cases (not (c.id == id) && ltb settings.num_buffers (sub16 c.acked acked))) [
      | inl t ↦
          subst (IsOneOf settings id acked c cs) (sym (if_true _ _ t))
            (elim of_child [ inl e ↦ inr (inl (ground (arith, t), sym e)) | inr h ↦ inr (inr h) ])
      | inr t ↦
          subst (IsOneOf settings id acked c cs) (sym (if_false _ _ t))
            (elim of_others [ inl e ↦ inl e | inr h ↦ inr (inr h) ])
    ]
