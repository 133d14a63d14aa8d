-- ===== src/Cache/Pinned.antt =====
-- co/instanceCache.cpp: accessed items when others are erased, removed or expire.
pub mod Others
use collage.Prelude.{
  ℤ, ℕ, ◌-◌, ◌≡◌, sym, ap, ◌∙◌, inl, inr, true, false, not, ◌&&◌, some, List, [], ◌∷◌, arith, ltb,
  leb, ◌==◌, if_false, Bool-cases, Option-cases, length,
}
use mathlib.Core.Bool.{false≢true}
use collage.Slave.Versions.{DataCommand, get_pending_version, is_ready, VersionStream}
use collage.Cache.Items.{
  Item, Cache, has_streams, is_pinned, delete_all, expire_streams, find_item, put_item, erase_item,
}
use collage.Cache.Evict.{release_items}
use collage.Cache.Evict.Pinned.{
  IsPinned, keeps-cons, found_head, tail_found, release_items-IsPinned,
}
use collage.Cache.Operations.{
  min_time_of, ObjectVersion, Change, item_for, claim_item, push_stream, back_stream, open_stream,
  refuse, store_command, add, release, lookup, erase, remove_from, remove, expire_items, expire,
}

find-erase_item :
    (id x : ℕ) (i y : Item) (l : List Item)
    → is_pinned i ≡ true
    → find_item x l ≡ some y
    → is_pinned y ≡ false
    → find_item id l ≡ some i
    → find_item id (erase_item x l) ≡ some i
unfolding erase_item
find-erase_item id x i y [] p f q k = k
find-erase_item id x i y (z ∷ l) p f q k = elim (Bool-cases (z.id == x)) [
  | inl erased ↦ elim (Bool-cases (z.id == id)) [
    | inl here ↦
        let first = found_head id i z l here k in
        let second = found_head x y z l erased f in
        absurd (false≢true (sym (ap is_pinned second ∙ q) ∙ ap is_pinned first ∙ p))
    | inr there ↦ rw erased (tail_found id i z l there k)
  ]
  | inr kept ↦ rw kept (
      keeps-cons id i z l (erase_item x l)
        (find-erase_item id x i y l p (tail_found x y z l kept f) q) k)
]

-- What an item that goes cannot be.
skip_free :
    (id : ℕ) (i x : Item) (l : List Item)
    → is_pinned i ≡ true
    → is_pinned x ≡ false
    → find_item id (x ∷ l) ≡ some i
    → (x.id == id) ≡ false
skip_free id i x l p free k = elim (Bool-cases (x.id == id)) [
  | inl here ↦ absurd (false≢true (sym free ∙ ap is_pinned (found_head id i x l here k) ∙ p))
  | inr there ↦ there
]

find-remove_from :
    (node size id : ℕ) (i : Item) (l : List Item)
    → is_pinned i ≡ true
    → find_item id l ≡ some i
    → find_item id (remove_from node size l).1 ≡ some i
unfolding remove_from
find-remove_from node size id i [] p k = k
find-remove_from node size id i (x ∷ l) p k =
    elim (Bool-cases ((x.from == node) && not (is_pinned x))) [
      | inl goes ↦
          let free : is_pinned x ≡ false = ground arith in
          rw goes (
            find-remove_from node (delete_all size x.versions) id i l p
              (tail_found id i x l (skip_free id i x l p free k) k))
      | inr stays ↦ rw stays (keeps-cons id i x l _ (find-remove_from node size id i l p) k)
    ]

after_other :
    (id : ℕ) (i x : Item) (r : List Item)
    → (x.id == id) ≡ false
    → find_item id r ≡ some i
    → find_item id (x ∷ r) ≡ some i
unfolding find_item
after_other id i x r h k = if_false {b = x.id == id} (some x) (find_item id r) h ∙ k

find-expire_items :
    (min_time size id : ℕ) (i : Item) (l : List Item)
    → is_pinned i ≡ true
    → find_item id l ≡ some i
    → find_item id (expire_items min_time size l).1 ≡ some i
unfolding expire_items
find-expire_items min_time size id i [] p k = k
find-expire_items min_time size id i (x ∷ l) p k =
    let q = expire_streams min_time size x.versions x.times in
    elim (Bool-cases (is_pinned x)) [
      | inl pinned ↦ rw pinned (keeps-cons id i x l _ (find-expire_items min_time size id i l p) k)
      | inr free ↦
          let other = skip_free id i x l p free k in
          let rest = find-expire_items min_time q.0 id i l p (tail_found id i x l other k) in
          elim (Bool-cases (ltb 0 (length q.1))) [
            | inl more ↦
                rw (free, more)
                  (after_other id i (record x { versions = q.1; times = q.2 }) _ other rest)
            | inr empty ↦ rw (free, empty) rest
          ]
    ]

erase-IsPinned :
    (c : Cache) (id x : ℕ) (i : Item) → IsPinned id i c.items → IsPinned id i (erase c x).0.items
unfolding erase
erase-IsPinned c id x i p = elim (Option-cases (find_item x c.items)) [
  | inl missing ↦ rw (missing, erase) p
  | inr (y, found) ↦ elim (Bool-cases (is_pinned y)) [
    | inl pinned ↦ rw (found, pinned, erase) p
    | inr free ↦
        rw (found, free, erase)
          (record {
            found = find-erase_item id x i y c.items p.pinned found free p.found;
            pinned = p.pinned;
            streams = p.streams;
          })
  ]
]

remove-IsPinned :
    (c : Cache) (id node : ℕ) (i : Item)
    → IsPinned id i c.items
    → IsPinned id i (remove c node).items
unfolding remove
remove-IsPinned c id node i p = record {
  found = find-remove_from node c.size id i c.items p.pinned p.found;
  pinned = p.pinned;
  streams = p.streams;
}

expire-IsPinned :
    (c : Cache) (id now : ℕ) (timeout : ℤ) (i : Item)
    → IsPinned id i c.items
    → IsPinned id i (expire c now timeout).items
unfolding expire
expire-IsPinned c id now timeout i p = elim (Bool-cases (min_time_of now timeout == 0)) [
  | inl early ↦ rw early p
  | inr late ↦ rw late (record {
    found = find-expire_items (min_time_of now timeout) c.size id i c.items p.pinned p.found;
    pinned = p.pinned;
    streams = p.streams;
  })
]

-- An item that is accessed, and that holds data, stays as it is when any item is erased, when a node
-- is removed, and when old versions expire.
pub cleanup-IsPinned :
    (c : Cache) (id x node now : ℕ) (timeout : ℤ) (i : Item)
    → IsPinned id i c.items
    → IsPinned id i (erase c x).0.items
      × IsPinned id i (remove c node).items
      × IsPinned id i (expire c now timeout).items
cleanup-IsPinned c id x node now timeout i p =
    (erase-IsPinned c id x i p, remove-IsPinned c id node i p, expire-IsPinned c id now timeout i p)
