-- ===== src/Cache/Items.antt =====
-- co/instanceCache.cpp: the items of the cache and the release of their streams. The hash map is a
-- list of items, in the order in which it is iterated; times and sizes are 64-bit words.
use collage.Prelude.{
  ℕ, ◌+◌, ◌-◌, ◌%◌, Bool, ◌&&◌, Option, none, some, List, [], ◌∷◌, ltb, leb, ◌==◌, if◌then◌else◌,
  length, u64_mod,
}
use collage.Slave.Versions.{VersionStream, is_ready, get_data_size}

-- InstanceCache::Item with its Data; `versions` and `times` are the deques, front first.
pub record Item : Type 0 where
  pub id : ℕ
  pub master_instance_id : ℕ
  pub versions : List VersionStream
  pub used : ℕ
  pub access : ℕ
  pub from : ℕ
  pub times : List ℕ

pub record Cache : Type 0 where
  pub items : List Item
  pub max_size : ℕ
  pub size : ℕ

-- InstanceCache::InstanceCache
unfoldable pub new_cache : ℕ → Cache
new_cache max_size = record { items = []; max_size = max_size; size = 0 }

abbrev pub has_streams : Item → Bool
has_streams i = ltb 0 (length i.versions)

abbrev pub is_pinned : Item → Bool
is_pinned i = ltb 0 i.access

-- std::deque::pop_front
abbrev pub pop_front {ℓ} : {A : Type ℓ} → List A → List A
pop_front [] = []
pop_front (x ∷ xs) = xs

-- _deleteStream: the size goes down by what the stream holds.
unfoldable pub delete_stream : ℕ → VersionStream → ℕ
delete_stream size s = (size + u64_mod - get_data_size s % u64_mod) % u64_mod

-- _releaseFirstStream
unfoldable pub release_first_size : ℕ → Item → ℕ
unfolding delete_stream
release_first_size size i = elim i.versions [ [] ↦ size | s ∷ _ ↦ delete_stream size s ]

unfoldable pub release_first : Item → Item
release_first i = elim i.versions [
  | [] ↦ i
  | _ ∷ r ↦ record i { versions = r; times = pop_front i.times }
]

-- _releaseStreams( item ), which deletes from the back.
unfoldable pub delete_all : ℕ → List VersionStream → ℕ
unfolding delete_stream
delete_all size [] = size
delete_all size (s ∷ r) = delete_stream (delete_all size r) s

abbrev pub release_all : Item → Item
release_all i = record i { versions = []; times = [] }

-- _releaseStreams( item, minTime ): complete streams that are old enough, from the front.
unfoldable pub expire_streams :
    ℕ → ℕ → List VersionStream → List ℕ → ℕ × List VersionStream × List ℕ
unfolding delete_stream
expire_streams min_time size (s ∷ r) (t ∷ ts) =
    let rest = expire_streams min_time (delete_stream size s) r ts in
    if leb t min_time && is_ready s then rest else (size, s ∷ r, t ∷ ts)
expire_streams min_time size vs ts = (size, vs, ts)

unfoldable pub find_item : ℕ → List Item → Option Item
find_item id [] = none
find_item id (i ∷ r) = if i.id == id then some i else find_item id r

-- Writing through a reference into the map.
unfoldable pub put_item : Item → List Item → List Item
put_item j [] = j ∷ []
put_item j (i ∷ r) = if i.id == j.id then j ∷ r else i ∷ put_item j r

unfoldable pub erase_item : ℕ → List Item → List Item
erase_item id [] = []
erase_item id (i ∷ r) = if i.id == id then r else i ∷ erase_item id r
