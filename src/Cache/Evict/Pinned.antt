-- ===== src/Cache/Evict/Pinned.antt =====
-- co/instanceCache.cpp: accessed items in _releaseItems.
use collage.Prelude.{
  ℕ, zero, suc, ◌≡◌, refl, sym, ap, ◌∙◌, inl, inr, true, false, not, ◌&&◌, Option, none, some, List,
  [], ◌∷◌, arith, ltb, leb, ◌==◌, if_true, if_false, Bool-cases, contains,
}
use collage.Cache.Items.{
  Item, Cache, has_streams, is_pinned, release_first_size, release_first, find_item,
}
use collage.Cache.Evict.{
  count_streams, may_release, Progress, release_round, release_keys, release_more, drop_empty,
  release_progress, release_items,
}
use collage.Cache.Evict.Rounds.{
  release_first-IsShorter, has_work, round_goes, round_stays, keys_goes, keys_stays, more_stops,
  more_runs,
}

-- The item with this id is the given one, which is accessed and holds data.
pub record IsPinned (id : ℕ) (i : Item) (l : List Item) : Type 0 where
  pub found : find_item id l ≡ some i
  pub pinned : is_pinned i ≡ true
  pub streams : has_streams i ≡ true

IsPinned-cons :
    (id : ℕ) (i x y : Item) (l r : List Item)
    → (x.id == id) ≡ false
    → y.id ≡ x.id
    → (find_item id l ≡ some i → find_item id r ≡ some i)
    → find_item id (x ∷ l) ≡ some i
    → find_item id (y ∷ r) ≡ some i
unfolding find_item
IsPinned-cons id i x y l r h e next k =
    if_false {b = y.id == id} (some y) (find_item id r) (ap (λ n. n == id) e ∙ h)
    ∙ next (sym (if_false {b = x.id == id} (some x) (find_item id l) h) ∙ k)

pub tail_found :
    (id : ℕ) (i x : Item) (l : List Item)
    → (x.id == id) ≡ false
    → find_item id (x ∷ l) ≡ some i
    → find_item id l ≡ some i
unfolding find_item
tail_found id i x l h k = sym (if_false {b = x.id == id} (some x) (find_item id l) h) ∙ k

-- An item that stays where it is, before a list that keeps what is looked for.
pub keeps-cons :
    (id : ℕ) (i x : Item) (l r : List Item)
    → (find_item id l ≡ some i → find_item id r ≡ some i)
    → find_item id (x ∷ l) ≡ some i
    → find_item id (x ∷ r) ≡ some i
unfolding find_item
keeps-cons id i x l r next k = elim (Bool-cases (x.id == id)) [
  | inl here ↦
      if_true {b = x.id == id} (some x) (find_item id r) here
      ∙ sym (if_true {b = x.id == id} (some x) (find_item id l) here)
      ∙ k
  | inr there ↦ IsPinned-cons id i x x l r there refl next k
]

pub found_head :
    (id : ℕ) (i x : Item) (l : List Item)
    → (x.id == id) ≡ true
    → find_item id (x ∷ l) ≡ some i
    → x ≡ i
unfolding find_item
found_head id i x l here k =
    ap (or_else x) (sym (if_true {b = x.id == id} (some x) (find_item id l) here) ∙ k)
  where
    or_else : Item → Option Item → Item
    or_else x none = x
    or_else x (some y) = y

-- A head that may be released is not the item that is accessed.
free_head :
    (id u : ℕ) (i x : Item) (l : List Item)
    → is_pinned i ≡ true
    → may_release u x ≡ true
    → find_item id (x ∷ l) ≡ some i
    → (x.id == id) ≡ false
unfolding may_release
free_head id u i x l pinned may k = elim (Bool-cases (x.id == id)) [
  | inl here ↦
      let same : is_pinned x ≡ true = ap is_pinned (found_head id i x l here k) ∙ pinned in
      absurd (ground (arith, may, same))
  | inr there ↦ there
]

released_head :
    (id u : ℕ) (i x : Item) (l r : List Item)
    → is_pinned i ≡ true
    → may_release u x ≡ true
    → (find_item id l ≡ some i → find_item id r ≡ some i)
    → find_item id (x ∷ l) ≡ some i
    → find_item id (release_first x ∷ r) ≡ some i
released_head id u i x l r pinned may next k =
    IsPinned-cons id i x (release_first x) l r (free_head id u i x l pinned may k)
      (release_first-IsShorter u x).id next k

module _ (t u id : ℕ) (i : Item) (pinned : is_pinned i ≡ true) where
  find-release_round :
      (size : ℕ) (l : List Item)
      → find_item id l ≡ some i
      → find_item id (release_round t u size l).items ≡ some i
  unfolding release_round
  find-release_round size [] k = k
  find-release_round size (x ∷ l) k = elim (Bool-cases (ltb t size && may_release u x)) [
    | inl g ↦ rw (round_goes t u size x l g) (
        released_head id u i x l _ pinned (ground arith)
          (find-release_round (release_first_size size x) l) k)
    | inr g ↦ rw (round_stays t u size x l g) (keeps-cons id i x l _ (find-release_round size l) k)
  ]

  find-release_keys :
      (ks : List ℕ) (size : ℕ) (l : List Item)
      → find_item id l ≡ some i
      → find_item id (release_keys t u ks size l).items ≡ some i
  unfolding release_keys
  find-release_keys ks size [] k = k
  find-release_keys ks size (x ∷ l) k = elim (Bool-cases (ltb t size && has_work u ks x)) [
    | inl g ↦ rw (keys_goes t u ks size x l g) (
        released_head id u i x l _ pinned (ground arith)
          (find-release_keys ks (release_first_size size x) l) k)
    | inr g ↦
        rw (keys_stays t u ks size x l g) (keeps-cons id i x l _ (find-release_keys ks size l) k)
  ]

  find-release_more :
      (fuel : ℕ) (p : Progress)
      → find_item id p.items ≡ some i
      → find_item id (release_more fuel t u p).items ≡ some i
  unfolding release_more
  find-release_more zero p k = k
  find-release_more (suc fuel) p k = elim (Bool-cases (p.streams_left && ltb t p.size)) [
    | inl g ↦ rw (more_runs t u fuel p g) (
        find-release_more fuel (release_keys t u p.keys p.size p.items)
          (find-release_keys p.keys p.size p.items k))
    | inr g ↦ rw (more_stops t u (suc fuel) p g) k
  ]

find-drop_empty :
    (ks : List ℕ) (id : ℕ) (i : Item) (l : List Item)
    → has_streams i ≡ true
    → find_item id l ≡ some i
    → find_item id (drop_empty ks l) ≡ some i
unfolding drop_empty
find-drop_empty ks id i [] h k = k
find-drop_empty ks id i (x ∷ l) h k =
    elim (Bool-cases (not (contains ks x.id && not (has_streams x)))) [
      | inl stays ↦ rw stays (keeps-cons id i x l (drop_empty ks l) (find-drop_empty ks id i l h) k)
      | inr goes ↦ elim (Bool-cases (x.id == id)) [
        | inl here ↦
            let full : has_streams x ≡ true = ap has_streams (found_head id i x l here k) ∙ h in
            absurd (ground (arith, goes, full))
        | inr there ↦ rw goes (find-drop_empty ks id i l h (tail_found id i x l there k))
      ]
    ]

-- An eviction leaves an item that is accessed, and that holds data, as it is.
pub release_items-IsPinned :
    (target : ℕ → ℕ) (u : ℕ) (c : Cache) (id : ℕ) (i : Item)
    → IsPinned id i c.items
    → IsPinned id i (release_items target u c).items
unfolding release_items release_progress
release_items-IsPinned target u c id i p = elim (Bool-cases (leb c.size c.max_size)) [
  | inl small ↦ rw small p
  | inr large ↦
      let t = target c.max_size in
      let first = release_round t u c.size c.items in
      let last = release_more (count_streams first.items) t u first in
      rw large (record {
        found = find-drop_empty last.keys id i last.items p.streams (
            find-release_more t u id i p.pinned (count_streams first.items) first
              (find-release_round t u id i p.pinned c.size c.items p.found));
        pinned = p.pinned;
        streams = p.streams;
      })
]
