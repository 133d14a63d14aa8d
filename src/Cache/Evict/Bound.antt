-- ===== src/Cache/Evict/Bound.antt =====
-- co/instanceCache.cpp: when the loops of _releaseItems stop, and what they leave.
use collage.Prelude.{
  ℕ, zero, suc, ◌≤◌, ◌<◌, ◌≡◌, refl, sym, ◌∙◌, subst, ◌⊎◌, inl, inr, true, false, not, ◌&&◌, List,
  [], ◌∷◌, arith, ltb, leb, leb→le, Bool-cases, contains, All,
}
use collage.Cache.Items.{Item, Cache, has_streams}
use collage.Cache.Evict.{
  may_release, Progress, release_round, release_keys, release_more, count_streams, drop_empty,
  release_progress, release_items,
}
use collage.Cache.Evict.Rounds.{keys-release_keys, more_stops, more_runs}
use collage.Cache.Evict.Left.{
  any_pending, Keyed, count-release_keys, Keyed-release_keys, left-release_keys, left-release_round,
  Keyed-release_round,
}

-- What the loops aim at: the cache is down to the target, or no stream is left that may go.
record IsDone (t u : ℕ) (p : Progress) : Type 0 where
  reached : t < p.size → any_pending u p.items ≡ false
  keyed : t < p.size → Keyed u p.keys p.items
  ended : (p.streams_left && ltb t p.size) ≡ false

no_streams-pending : (u : ℕ) (l : List Item) → count_streams l ≡ 0 → any_pending u l ≡ false
no_streams-pending u [] h = refl
no_streams-pending u (i ∷ r) h =
    let none_here : has_streams i ≡ false = ground arith in
    rw (none_here, no_streams-pending u r (omega arith))

module _ (t u : ℕ) where
  -- As many rounds as there are streams are enough.
  release_more-IsDone :
      (fuel : ℕ) (p : Progress)
      → count_streams p.items ≤ fuel
      → (t < p.size → p.streams_left ≡ any_pending u p.items)
      → (t < p.size → Keyed u p.keys p.items)
      → IsDone t u (release_more fuel t u p)
  unfolding release_more
  release_more-IsDone zero p h left k = record {
    reached = λ over. no_streams-pending u p.items (omega arith);
    keyed = k;
    ended = elim (Bool-cases (ltb t p.size)) [
      | inl over ↦
          let over' : t < p.size = ground arith in
          let none_left = left over' ∙ no_streams-pending u p.items (omega arith) in ground arith
      | inr under ↦ ground arith
    ];
  }
  release_more-IsDone (suc fuel) p h left k = elim (Bool-cases (p.streams_left && ltb t p.size)) [
    | inl g ↦
        let over : t < p.size = ground arith in
        let c = count-release_keys t u p.keys p.size p.items (k over) in
        let same = keys-release_keys t u p.keys p.size p.items in
        let pending : any_pending u p.items ≡ true = sym (left over) ∙ ground arith in
        let fewer = c.1 over pending in
        rw (more_runs t u fuel p g) (
          release_more-IsDone fuel (release_keys t u p.keys p.size p.items) (omega (arith, fewer))
            (left-release_keys t u p.keys p.size p.items (k over))
            (λ _.
              subst (λ ks. Keyed u ks (release_keys t u p.keys p.size p.items).items) (sym same)
                (Keyed-release_keys t u p.keys p.size p.items (k over))))
    | inr g ↦
        rw (more_stops t u (suc fuel) p g)
          (record { reached = λ over. sym (left over) ∙ ground arith; keyed = k; ended = g })
  ]

drop_empty-none :
    (u : ℕ) (ks : List ℕ) (l : List Item)
    → any_pending u l ≡ false
    → Keyed u ks l
    → All (λ i. may_release u i ≡ false) (drop_empty ks l)
unfolding drop_empty
drop_empty-none u ks [] h k = tt
drop_empty-none u ks (i ∷ r) h k =
    let rest = drop_empty-none u ks r (ground arith) k.1 in
    elim (Bool-cases (not (contains ks i.id && not (has_streams i)))) [
      | inl stays ↦ rw stays (ground (arith, k.0), rest)
      | inr goes ↦ rw goes rest
    ]

module _ (target : ℕ → ℕ) where
  release_progress-IsDone :
      (u : ℕ) (c : Cache) → IsDone (target c.max_size) u (release_progress target u c)
  unfolding release_progress
  release_progress-IsDone u c =
      let t = target c.max_size in
      let first = release_round t u c.size c.items in
      release_more-IsDone t u (count_streams first.items) first (omega arith)
        (left-release_round t u c.size c.items)
        (λ over. Keyed-release_round t u c.size c.items first.keys over (λ n h. h))

  -- An eviction changes nothing in a cache within its maximum. Otherwise the second loop has ended
  -- by its own test, not for want of rounds: the last round left no stream to release, or the cache
  -- is down to the target. Then the cache is down to the target, or every item that is left is
  -- accessed or has been used less often than the eviction asks for.
  pub release_items-bound :
      (u : ℕ) (c : Cache)
      → ((c.size ≤ c.max_size) × (release_items target u c ≡ c))
        ⊎ ((c.max_size < c.size)
            × (((release_progress target u c).streams_left
                  && ltb (target c.max_size) (release_progress target u c).size)
                ≡ false)
            × (((release_items target u c).size ≤ target c.max_size)
                ⊎ All (λ i. may_release u i ≡ false) (release_items target u c).items))
  unfolding release_items
  release_items-bound u c = elim (Bool-cases (leb c.size c.max_size)) [
    | inl small ↦ inl (leb→le _ _ small, rw small)
    | inr large ↦
        let p = release_progress target u c in
        let done = release_progress-IsDone u c in
        let left : ((release_items target u c).size ≤ target c.max_size)
            ⊎ All (λ i. may_release u i ≡ false) (release_items target u c).items =
          elim (Bool-cases (leb p.size (target c.max_size))) [
            | inl fits ↦ inl (rw large (leb→le _ _ fits))
            | inr full ↦
                let over : target c.max_size < p.size = ground arith in
                inr (
                  rw large (drop_empty-none u p.keys p.items (done.reached over) (done.keyed over)))
          ] in
        inr (ground arith, done.ended, left)
  ]
