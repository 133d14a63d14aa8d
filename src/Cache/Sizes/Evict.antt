-- ===== src/Cache/Sizes/Evict.antt =====
-- co/instanceCache.cpp: the size in _releaseItems.
use collage.Prelude.{
  ℕ, zero, suc, ◌+◌, ◌≤◌, ◌<◌, ◌≡◌, refl, ap, ◌∙◌, subst, inl, inr, not, ◌&&◌, List, [], ◌∷◌, arith,
  ltb, leb, Bool-cases, contains, u64_mod,
}
use collage.Slave.Versions.{AllReady, VersionStream}
use collage.Cache.Items.{Item, Cache, has_streams, delete_stream, release_first_size, release_first}
use collage.Cache.Evict.{
  count_streams, may_release, Progress, release_round, release_keys, release_more, release_progress,
  drop_empty, release_items,
}
use collage.Cache.Evict.Rounds.{
  has_work, round_goes, round_stays, keys_goes, keys_stays, more_stops, more_runs,
}
use collage.Cache.Sizes.{
  no_streams-ready_size, ready_size, total_size, NoneArriving, delete_stream_lem, IsCounted,
  IsCounted-cons, IsSized,
}

-- `x` is what the rest of the cache holds.
record Shrinks (x n : ℕ) (i j : Item) : Type 0 where
  size : n ≡ ready_size j.versions + x
  ready : AllReady j.versions
  less : ready_size j.versions ≤ ready_size i.versions

Shrinks-release_first :
    (i : Item) (vs : List VersionStream) (x : ℕ)
    → AllReady vs
    → ready_size vs + x < u64_mod
    → let j : Item = record i { versions = vs } in
      Shrinks x (release_first_size (ready_size vs + x) j) j (release_first j)
unfolding release_first release_first_size
Shrinks-release_first i [] x k h = record { size = refl; ready = tt; less = omega arith }
Shrinks-release_first i (s ∷ r) x k h = record {
  size =
      ap (λ n. delete_stream n s) (rw k.0 (omega arith))
      ∙ delete_stream_lem s (ready_size r + x) (omega (arith, rw k.0 at h));
  ready = k.1;
  less = rw k.0 (omega arith);
}

release_first-Shrinks :
    (i : Item) (x : ℕ)
    → AllReady i.versions
    → ready_size i.versions + x < u64_mod
    → Shrinks x (release_first_size (ready_size i.versions + x) i) i (release_first i)
release_first-Shrinks i x k h = Shrinks-release_first i i.versions x k h

-- The size after the release of the first stream of the head of a list.
release_head-Shrinks :
    (x n : ℕ) (i : Item) (r : List Item)
    → NoneArriving (i ∷ r)
    → n ≡ total_size (i ∷ r) + x
    → n < u64_mod
    → Shrinks (total_size r + x) (release_first_size n i) i (release_first i)
release_head-Shrinks x n i r k e h =
    subst (λ m. Shrinks (total_size r + x) (release_first_size m i) i (release_first i))
      (omega arith) (release_first-Shrinks i (total_size r + x) k.0 (omega arith))

module _ (t u : ℕ) where
  IsCounted-release_round :
      (x n : ℕ) (l : List Item)
      → NoneArriving l
      → n ≡ total_size l + x
      → n < u64_mod
      → let p = release_round t u n l in IsCounted x n p.items p.size
  unfolding release_round
  IsCounted-release_round x n [] k e h = record { total = e; ready = tt; less = omega arith }
  IsCounted-release_round x n (i ∷ r) k e h = elim (Bool-cases (ltb t n && may_release u i)) [
    | inl g ↦
        let s = release_head-Shrinks x n i r k e h in
        let m = release_first_size n i in
        rw (round_goes t u n i r g) (
          IsCounted-cons x n m _ (release_first i) _ s.ready (omega (arith, s.size, s.less)) (
            IsCounted-release_round (ready_size (release_first i).versions + x) m r k.1
              (omega (arith, s.size)) (omega (arith, s.size, s.less))))
    | inr g ↦ rw (round_stays t u n i r g) (
        IsCounted-cons x n n _ i _ k.0 (omega arith)
          (IsCounted-release_round (ready_size i.versions + x) n r k.1 (omega arith) h))
  ]

  IsCounted-release_keys :
      (ks : List ℕ) (x n : ℕ) (l : List Item)
      → NoneArriving l
      → n ≡ total_size l + x
      → n < u64_mod
      → let p = release_keys t u ks n l in IsCounted x n p.items p.size
  unfolding release_keys
  IsCounted-release_keys ks x n [] k e h = record { total = e; ready = tt; less = omega arith }
  IsCounted-release_keys ks x n (i ∷ r) k e h = elim (Bool-cases (ltb t n && has_work u ks i)) [
    | inl g ↦
        let s = release_head-Shrinks x n i r k e h in
        let m = release_first_size n i in
        rw (keys_goes t u ks n i r g) (
          IsCounted-cons x n m _ (release_first i) _ s.ready (omega (arith, s.size, s.less)) (
            IsCounted-release_keys ks (ready_size (release_first i).versions + x) m r k.1
              (omega (arith, s.size)) (omega (arith, s.size, s.less))))
    | inr g ↦ rw (keys_stays t u ks n i r g) (
        IsCounted-cons x n n _ i _ k.0 (omega arith)
          (IsCounted-release_keys ks (ready_size i.versions + x) n r k.1 (omega arith) h))
  ]

  IsCounted-release_more :
      (fuel n : ℕ) (p : Progress)
      → n < u64_mod
      → IsCounted 0 n p.items p.size
      → let q = release_more fuel t u p in IsCounted 0 n q.items q.size
  unfolding release_more
  IsCounted-release_more zero n p h c = c
  IsCounted-release_more (suc fuel) n p h c = elim (Bool-cases (p.streams_left && ltb t p.size)) [
    | inl g ↦
        let next =
          IsCounted-release_keys p.keys 0 p.size p.items c.ready c.total (omega (arith, c.less)) in
        rw (more_runs t u fuel p g) (
          IsCounted-release_more fuel n (release_keys t u p.keys p.size p.items) h (record {
            total = next.total;
            ready = next.ready;
            less = omega (arith, next.less, c.less);
          }))
    | inr g ↦ rw (more_stops t u (suc fuel) p g) c
  ]

drop_empty-total_size :
    (ks : List ℕ) (l : List Item)
    → NoneArriving l
    → (total_size (drop_empty ks l) ≡ total_size l) × NoneArriving (drop_empty ks l)
unfolding drop_empty
drop_empty-total_size ks [] k = (refl, tt)
drop_empty-total_size ks (i ∷ r) k =
    let (same, ready) = drop_empty-total_size ks r k.1 in
    elim (Bool-cases (not (contains ks i.id && not (has_streams i)))) [
      | inl stays ↦ rw stays (omega (arith, same), (k.0, ready))
      | inr goes ↦
          let none_here = no_streams-ready_size i.versions (ground arith) in
          rw goes (omega (arith, same, none_here), ready)
    ]

pub release_items-IsSized :
    (target : ℕ → ℕ) (u : ℕ) (c : Cache) → IsSized c → IsSized (release_items target u c)
unfolding release_items release_progress
release_items-IsSized target u c v = elim (Bool-cases (leb c.size c.max_size)) [
  | inl small ↦ rw small v
  | inr large ↦
      let t = target c.max_size in
      let first = release_round t u c.size c.items in
      let p = release_more (count_streams first.items) t u first in
      let done =
        IsCounted-release_more t u (count_streams first.items) c.size first v.bound
          (IsCounted-release_round t u 0 c.size c.items v.ready (omega (arith, v.total)) v.bound) in
      let (same, ready) = drop_empty-total_size p.keys p.items done.ready in
      rw large (record {
        total = omega (arith, same, done.total);
        ready = ready;
        bound = omega (arith, done.less, v.bound);
      })
]
