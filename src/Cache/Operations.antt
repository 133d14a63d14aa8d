-- ===== src/Cache/Operations.antt =====
-- co/instanceCache.cpp: the operations of the cache.
use collage.Prelude.{
  ℤ, pos, negsuc, ℕ, ◌+◌, ◌-◌, ◌%◌, Bool, true, false, not, ◌&&◌, ◌||◌, Option, none, some, List,
  [], ◌∷◌, ◌++◌, ltb, ◌==◌, if◌then◌else◌, length, u32_mod, u64_mod,
}
use collage.Slave.Versions.{
  DataCommand, VersionStream, empty_stream, is_ready, get_data_size, get_pending_version,
  add_data_command,
}
use collage.Cache.Items.{
  Item, Cache, is_pinned, delete_all, release_all, expire_streams, find_item, put_item, erase_item,
}
use collage.Cache.Evict.{release_items}

-- ObjectVersion
pub record ObjectVersion : Type 0 where
  pub identifier : ℕ
  pub version : ℕ

-- The item that add works on: a new one if there is none.
unfoldable pub item_for : Cache → ℕ → ℕ → ℕ → Item
item_for c id instance_id node = elim (find_item id c.items) [
  | some i ↦ i
  | none ↦ record {
    id = id;
    master_instance_id = instance_id;
    versions = [];
    used = 0;
    access = 0;
    from = node;
    times = [];
  }
]

-- A size and an item, as add changes them; `none` is an early return of false.
abbrev pub Change : Type 0
Change = Option (ℕ × Item)

-- Data of another master or of another mapping of it is thrown away, unless it is accessed.
unfoldable pub claim_item : ℕ → Item → ℕ → ℕ → ℕ → Change
claim_item size i instance_id node usage =
    if not (i.master_instance_id == instance_id) || not (i.from == node)
    then if is_pinned i
      then none
      else some (
        delete_all size i.versions,
        record (release_all i) { master_instance_id = instance_id; from = node; used = usage },
      )
    else some (size, record i { used = if ltb i.used usage then usage else i.used })

abbrev pub push_stream : ℕ → Item → Item
push_stream now i = record i {
  versions = i.versions ++ empty_stream ∷ [];
  times = i.times ++ now ∷ [];
}

unfoldable pub back_stream : List VersionStream → Option VersionStream
back_stream [] = none
back_stream (s ∷ []) = some s
back_stream (s ∷ t ∷ r) = back_stream (t ∷ r)

-- Where the command goes: the version that is arriving, or a new stream at the back. A version that
-- is there, one that is older, and one behind a hole in data that is accessed are refused.
unfoldable pub open_stream : ℕ → ℕ → ℕ → Item → Change
open_stream size now version i = elim (back_stream i.versions) [
  | none ↦ some (size, push_stream now i)
  | some back ↦
      if get_pending_version back == version
      then if is_ready back then none else some (size, i)
      else if ltb version (get_pending_version back)
      then none
      else if get_pending_version back + 1 == version
      then some (size, push_stream now i)
      else if is_pinned i
      then none
      else some (delete_all size i.versions, push_stream now (release_all i))
]

unfoldable pub add_to_back : List VersionStream → DataCommand → List VersionStream
add_to_back [] command = []
add_to_back (s ∷ []) command = add_data_command s command ∷ []
add_to_back (s ∷ t ∷ r) command = s ∷ add_to_back (t ∷ r) command

-- The data of a stream counts once it is complete.
unfoldable pub count_back : ℕ → List VersionStream → ℕ
count_back size versions = elim (back_stream versions) [
  | none ↦ size
  | some s ↦ if is_ready s then (size + get_data_size s) % u64_mod else size
]

-- The item as a refused command leaves it: its use count is raised already.
unfoldable pub refuse : Cache → ℕ → Item → Cache × Bool
refuse c size i = (record c { items = put_item i c.items; size = size }, false)

module _ (target : ℕ → ℕ) where
  unfoldable pub store_command : Cache → ℕ → Item → DataCommand → Cache × Bool
  unfolding add_to_back count_back
  store_command c size i command =
      let versions = add_to_back i.versions command in
      let stored : Cache = record c {
        items = put_item (record i { versions = versions }) c.items;
        size = count_back size versions;
      } in
      (release_items target 0 (release_items target 1 stored), true)

  -- add
  unfoldable pub add : Cache → ObjectVersion → ℕ → ℕ → ℕ → ℕ → DataCommand → Cache × Bool
  add c rev instance_id node usage now command =
      elim (claim_item c.size (item_for c rev.identifier instance_id node) instance_id node usage) [
        | none ↦ (c, false)
        | some (size, i) ↦ elim (open_stream size now rev.version i) [
          | none ↦ refuse c size i
          | some (size', j) ↦ store_command c size' j command
        ]
      ]

  -- release
  unfoldable pub release : Cache → ℕ → ℕ → Cache × Bool
  release c id count = elim (find_item id c.items) [
    | none ↦ (c, false)
    | some i ↦ (
      release_items target 1 (record c {
        items =
            put_item (record i { access = (i.access + u32_mod - count % u32_mod) % u32_mod })
              c.items;
      }),
      true,
    )
  ]

-- operator []: the item's data, which is now accessed once more; `none` is Data::NONE.
unfoldable pub lookup : Cache → ℕ → Cache × Option Item
lookup c id = elim (find_item id c.items) [
  | none ↦ (c, none)
  | some i ↦
      let accessed : Item = record i {
        access = (i.access + 1) % u32_mod;
        used = (i.used + 1) % u32_mod;
      } in
      (record c { items = put_item accessed c.items }, some accessed)
]

-- erase
unfoldable pub erase : Cache → ℕ → Cache × Bool
erase c id = elim (find_item id c.items) [
  | none ↦ (c, false)
  | some i ↦
      if is_pinned i
      then (c, false)
      else (record c { items = erase_item id c.items; size = delete_all c.size i.versions }, true)
]

-- remove: all items of a node, but those that are accessed.
unfoldable pub remove_from : ℕ → ℕ → List Item → ℕ × List Item
remove_from node size [] = (size, [])
remove_from node size (i ∷ r) =
    let goes = (i.from == node) && not (is_pinned i) in
    let rest = remove_from node (if goes then delete_all size i.versions else size) r in
    if goes then rest else (rest.0, i ∷ rest.1)

unfoldable pub remove : Cache → ℕ → Cache
unfolding remove_from
remove c node =
    let (size, items) = remove_from node c.size c.items in record c { items = items; size = size }

-- expire, at the time `now` of the clock: items that it empties are erased.
unfoldable pub expire_items : ℕ → ℕ → List Item → ℕ × List Item
expire_items min_time size [] = (size, [])
expire_items min_time size (i ∷ r) =
    let (size', versions, times) = expire_streams min_time size i.versions i.times in
    let rest = expire_items min_time (if is_pinned i then size else size') r in
    if is_pinned i
    then (rest.0, i ∷ rest.1)
    else if ltb 0 (length versions)
    then (rest.0, record i { versions = versions; times = times } ∷ rest.1)
    else rest

-- The time before which versions expire, or 0 if it is not positive; the timeout may be negative.
abbrev pub min_time_of : ℕ → ℤ → ℕ
min_time_of now (pos timeout) = now - timeout
min_time_of now (negsuc n) = now + (n + 1)

unfoldable pub expire : Cache → ℕ → ℤ → Cache
unfolding expire_items
expire c now timeout =
    let (size, items) = expire_items (min_time_of now timeout) c.size c.items in
    if min_time_of now timeout == 0 then c else record c { items = items; size = size }
