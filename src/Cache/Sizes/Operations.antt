-- ===== src/Cache/Sizes/Operations.antt =====
-- co/instanceCache.cpp: the size in the other operations.
use collage.Prelude.{
  ℤ, ℕ, ◌+◌, ◌≤◌, ◌<◌, ◌≡◌, refl, ap, ◌∙◌, inl, inr, not, ◌&&◌, List, [], ◌∷◌, arith, ltb, leb,
  ◌==◌, Bool-cases, Option-cases, length, u64_mod,
}
use collage.Slave.Versions.{AllReady, VersionStream, is_ready}
use collage.Cache.Items.{
  Item, Cache, is_pinned, delete_stream, delete_all, expire_streams, find_item, put_item,
}
use collage.Cache.Operations.{
  min_time_of, release, lookup, erase, remove_from, remove, expire_items, expire,
}
use collage.Cache.Sizes.{
  no_streams-ready_size, ready_size, total_size, NoneArriving, delete_stream_lem, IsCounted,
  IsCounted-cons, IsSized,
}
use collage.Cache.Sizes.Evict.{release_items-IsSized}
use collage.Cache.Sizes.Found.{
  IsFound, find_item-IsFound, NoneArriving-put_item, NoneArriving-erase_item, deleted,
}

IsCounted-remove_from :
    (node x n : ℕ) (l : List Item)
    → NoneArriving l
    → n ≡ total_size l + x
    → n < u64_mod
    → let q = remove_from node n l in IsCounted x n q.1 q.0
unfolding remove_from
IsCounted-remove_from node x n [] k e h = record { total = e; ready = tt; less = omega arith }
IsCounted-remove_from node x n (i ∷ r) k e h =
    elim (Bool-cases ((i.from == node) && not (is_pinned i))) [
      | inl goes ↦
          let now = deleted n i.versions (total_size r + x) k.0 (omega arith) h in
          let c =
            IsCounted-remove_from node x (delete_all n i.versions) r k.1 now (omega (arith, now)) in
          rw goes (record { total = c.total; ready = c.ready; less = omega (arith, c.less, now) })
      | inr stays ↦ rw stays (
          IsCounted-cons x n n _ i _ k.0 (omega arith)
            (IsCounted-remove_from node (ready_size i.versions + x) n r k.1 (omega arith) h))
    ]

pub remove-IsSized : (c : Cache) (node : ℕ) → IsSized c → IsSized (remove c node)
unfolding remove
remove-IsSized c node v =
    let q = IsCounted-remove_from node 0 c.size c.items v.ready (omega (arith, v.total)) v.bound in
    record {
      total = omega (arith, q.total);
      ready = q.ready;
      bound = omega (arith, q.less, v.bound);
    }

-- What is left of the streams of an item that expires.
record IsLeft (x n size : ℕ) (vs : List VersionStream) : Type 0 where
  total : size ≡ ready_size vs + x
  ready : AllReady vs
  less : size ≤ n

expire_streams-IsLeft :
    (min_time n x : ℕ) (vs : List VersionStream) (ts : List ℕ)
    → AllReady vs
    → n ≡ ready_size vs + x
    → n < u64_mod
    → let q = expire_streams min_time n vs ts in IsLeft x n q.0 q.1
unfolding expire_streams
expire_streams-IsLeft min_time n x [] ts k e h = record {
  total = e;
  ready = tt;
  less = omega arith;
}
expire_streams-IsLeft min_time n x (s ∷ r) [] k e h = record {
  total = e;
  ready = k;
  less = omega arith;
}
expire_streams-IsLeft min_time n x (s ∷ r) (t ∷ ts) k e h =
    elim (Bool-cases (leb t min_time && is_ready s)) [
      | inl goes ↦
          let now : delete_stream n s ≡ ready_size r + x =
            ap (λ m. delete_stream m s) (e ∙ rw k.0 (omega arith))
            ∙ delete_stream_lem s (ready_size r + x) (omega (arith, rw k.0 at e, h)) in
          let q =
            expire_streams-IsLeft min_time (delete_stream n s) x r ts k.1 now
              (omega (arith, now, e, h)) in
          rw goes
            (record { total = q.total; ready = q.ready; less = omega (arith, q.less, now, e) })
      | inr stays ↦ rw stays (record { total = e; ready = k; less = omega arith })
    ]

IsCounted-expire_items :
    (min_time x n : ℕ) (l : List Item)
    → NoneArriving l
    → n ≡ total_size l + x
    → n < u64_mod
    → let q = expire_items min_time n l in IsCounted x n q.1 q.0
unfolding expire_items
IsCounted-expire_items min_time x n [] k e h = record { total = e; ready = tt; less = omega arith }
IsCounted-expire_items min_time x n (i ∷ r) k e h =
    let q = expire_streams min_time n i.versions i.times in
    let left =
      expire_streams-IsLeft min_time n (total_size r + x) i.versions i.times k.0 (omega arith) h in
    elim (Bool-cases (is_pinned i)) [
      | inl pinned ↦ rw pinned (
          IsCounted-cons x n n _ i _ k.0 (omega arith)
            (IsCounted-expire_items min_time (ready_size i.versions + x) n r k.1 (omega arith) h))
      | inr free ↦
          let c =
            IsCounted-expire_items min_time (ready_size q.1 + x) q.0 r k.1
              (omega (arith, left.total)) (omega (arith, left.less)) in
          elim (Bool-cases (ltb 0 (length q.1))) [
            | inl more ↦
                rw (free, more)
                  (IsCounted-cons x n q.0 _ (record i { versions = q.1; times = q.2 }) _ left.ready
                    left.less c)
            | inr empty ↦
                let nothing = no_streams-ready_size q.1 empty in
                rw (free, empty)
                  (record {
                    total = omega (arith, c.total, nothing);
                    ready = c.ready;
                    less = omega (arith, c.less, left.less);
                  })
          ]
    ]

pub expire-IsSized :
    (c : Cache) (now : ℕ) (timeout : ℤ) → IsSized c → IsSized (expire c now timeout)
unfolding expire
expire-IsSized c now timeout v =
    let q =
      IsCounted-expire_items (min_time_of now timeout) 0 c.size c.items v.ready
        (omega (arith, v.total)) v.bound in
    elim (Bool-cases (min_time_of now timeout == 0)) [
      | inl early ↦ rw early v
      | inr late ↦ rw late (record {
        total = omega (arith, q.total);
        ready = q.ready;
        bound = omega (arith, q.less, v.bound);
      })
    ]

pub erase-IsSized : (c : Cache) (id : ℕ) → IsSized c → IsSized (erase c id).0
unfolding erase
erase-IsSized c id v = elim (Option-cases (find_item id c.items)) [
  | inl missing ↦ rw (missing, erase) v
  | inr (i, found) ↦
      let f = find_item-IsFound id i c.items v.ready found in
      let now =
        deleted c.size i.versions f.rest f.ready (omega (arith, v.total, f.total)) v.bound in
      elim (Bool-cases (is_pinned i)) [
        | inl pinned ↦ rw (found, erase, pinned) v
        | inr free ↦
            rw (found, erase, free)
              (record {
                total = omega (arith, now, f.erased);
                ready = NoneArriving-erase_item id c.items v.ready;
                bound = omega (arith, now, f.total, v.total, v.bound);
              })
      ]
]

-- An item with the same versions takes the place of the one that is there.
put-IsSized :
    (c : Cache) (id : ℕ) (i j : Item)
    → IsSized c
    → IsFound id i c.items
    → j.id ≡ i.id
    → j.versions ≡ i.versions
    → IsSized (record c { items = put_item j c.items })
put-IsSized c id i j v f e same = record {
  total = omega (arith, v.total, f.total, f.put j (e ∙ f.same_id), ap ready_size same);
  ready = NoneArriving-put_item j c.items (rw same f.ready) v.ready;
  bound = v.bound;
}

pub release-IsSized :
    (target : ℕ → ℕ) (c : Cache) (id count : ℕ) → IsSized c → IsSized (release target c id count).0
unfolding release
release-IsSized target c id count v = elim (Option-cases (find_item id c.items)) [
  | inl missing ↦ rw (missing, release) v
  | inr (i, found) ↦
      rw (found, release)
        (release_items-IsSized target 1 _
          (put-IsSized c id i _ v (find_item-IsFound id i c.items v.ready found) refl refl))
]

pub lookup-IsSized : (c : Cache) (id : ℕ) → IsSized c → IsSized (lookup c id).0
unfolding lookup
lookup-IsSized c id v = elim (Option-cases (find_item id c.items)) [
  | inl missing ↦ rw (missing, lookup) v
  | inr (i, found) ↦
      rw (found, lookup)
        (put-IsSized c id i _ v (find_item-IsFound id i c.items v.ready found) refl refl)
]
