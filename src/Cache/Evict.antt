-- ===== src/Cache/Evict.antt =====
-- co/instanceCache.cpp: _releaseItems. The target, 80% of the maximum computed with floats, is a
-- parameter.
pub mod Rounds
pub mod Left
pub mod Bound
pub mod Pinned
use collage.Prelude.{
  ℕ, zero, suc, ◌+◌, Bool, true, false, not, ◌&&◌, ◌||◌, List, [], ◌∷◌, ltb, leb, if◌then◌else◌,
  length, contains, filter_by,
}
use collage.Cache.Items.{Item, Cache, has_streams, is_pinned, release_first_size, release_first}

-- May the item's streams go?
unfoldable pub may_release : ℕ → Item → Bool
may_release min_usage i = not (is_pinned i) && leb min_usage i.used

-- What the loops change.
pub record Progress : Type 0 where
  pub items : List Item
  pub size : ℕ
  pub keys : List ℕ
  pub streams_left : Bool

-- The first loop: the first stream of each item that may go, while the cache is over the target.
unfoldable pub release_round : ℕ → ℕ → ℕ → List Item → Progress
unfolding may_release
release_round target min_usage size [] = record {
  items = [];
  size = size;
  keys = [];
  streams_left = false;
}
release_round target min_usage size (i ∷ r) =
    let goes = ltb target size && may_release min_usage i in
    let rest =
      release_round target min_usage (if goes then release_first_size size i else size) r in
    if goes
    then record {
      items = release_first i ∷ rest.items;
      size = rest.size;
      keys = i.id ∷ rest.keys;
      streams_left = has_streams (release_first i) || rest.streams_left;
    }
    else record rest { items = i ∷ rest.items }

-- One round of the second loop, over the keys of the first.
unfoldable pub release_keys : ℕ → ℕ → List ℕ → ℕ → List Item → Progress
unfolding may_release
release_keys target min_usage keys size [] = record {
  items = [];
  size = size;
  keys = keys;
  streams_left = false;
}
release_keys target min_usage keys size (i ∷ r) =
    let goes =
      ltb target size && (contains keys i.id && (has_streams i && may_release min_usage i)) in
    let rest =
      release_keys target min_usage keys (if goes then release_first_size size i else size) r in
    if goes
    then record rest {
      items = release_first i ∷ rest.items;
      streams_left = has_streams (release_first i) || rest.streams_left;
    }
    else record rest { items = i ∷ rest.items }

-- The second loop, on fuel: each round releases a stream.
unfoldable pub release_more : ℕ → ℕ → ℕ → Progress → Progress
release_more zero target min_usage p = p
release_more (suc fuel) target min_usage p = elim (p.streams_left && ltb target p.size) [
  | false ↦ p
  | true ↦ release_more fuel target min_usage (release_keys target min_usage p.keys p.size p.items)
]

abbrev pub count_streams : List Item → ℕ
count_streams [] = 0
count_streams (i ∷ r) = length i.versions + count_streams r

-- The items that the loops have emptied.
unfoldable pub drop_empty : List ℕ → List Item → List Item
drop_empty keys items = filter_by (λ i. not (contains keys i.id && not (has_streams i))) items

module _ (target : ℕ → ℕ) where
  unfoldable pub release_progress : ℕ → Cache → Progress
  release_progress min_usage c =
      let first = release_round (target c.max_size) min_usage c.size c.items in
      release_more (count_streams first.items) (target c.max_size) min_usage first

  -- _releaseItems
  unfoldable pub release_items : ℕ → Cache → Cache
  release_items min_usage c =
      let done = release_progress min_usage c in
      if leb c.size c.max_size
      then c
      else record c { items = drop_empty done.keys done.items; size = done.size }
