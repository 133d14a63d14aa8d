-- ===== src/ObjectMap.antt =====
-- co/objectMap.cpp: a map of distributed objects that is itself distributed. The hash map is an
-- association list; the calls of the object handler and of the factory change nothing in the map and
-- are left out. What committing or syncing an object returns is a parameter.
pub mod Lookups
pub mod Changes
pub mod Commits
pub mod Ghosts
use collage.Prelude.{
  ℕ, Bool, true, false, ◌&&◌, ◌||◌, Option, none, some, List, [], ◌∷◌, ◌++◌, ltb, ◌==◌,
  if◌then◌else◌, contains,
}

-- The attached object: its version, and isMaster.
pub record Instance : Type 0 where
  pub version : ℕ
  pub is_master : Bool

pub record Entry : Type 0 where
  pub version : ℕ
  pub type_id : ℕ
  pub instance : Option Instance

-- OBJECTTYPE_NONE, and an entry that operator [] of the map makes
abbrev pub no_type : ℕ
no_type = 0

abbrev pub new_entry : Entry
new_entry = record { version = 0; type_id = no_type; instance = none }

pub record MapItem : Type 0 where
  pub id : ℕ
  pub entry : Entry

-- detail::ObjectMap; masters are the identifiers of the registered objects.
pub record MapState : Type 0 where
  pub map_items : List MapItem
  pub masters : List ℕ
  pub added : List ℕ
  pub removed : List ℕ
  pub changed : List (ℕ × ℕ)

-- map.find, map[ id ] = entry, and map.erase
abbrev pub find_entry : ℕ → List MapItem → Option Entry
find_entry id [] = none
find_entry id (i ∷ is) = if i.id == id then some i.entry else find_entry id is

abbrev pub put_entry : ℕ → Entry → List MapItem → List MapItem
put_entry id e [] = record { id = id; entry = e } ∷ []
put_entry id e (i ∷ is) =
    if i.id == id then record { id = id; entry = e } ∷ is else i ∷ put_entry id e is

abbrev pub erase_entry : ℕ → List MapItem → List MapItem
erase_entry id [] = []
erase_entry id (i ∷ is) = if i.id == id then erase_entry id is else i ∷ erase_entry id is

abbrev pub has_entry : ℕ → List MapItem → Bool
has_entry id is = elim (find_entry id is) [ none ↦ false | some e ↦ true ]

-- Entry& entry = map[ id ], which makes an entry if there is none.
abbrev pub entry_at : ℕ → List MapItem → Entry
entry_at id is = elim (find_entry id is) [ none ↦ new_entry | some e ↦ e ]

abbrev pub erase_id : ℕ → List ℕ → List ℕ
erase_id id [] = []
erase_id id (x ∷ xs) = if x == id then xs else x ∷ erase_id id xs

-- What register_ puts into the map; the object handler has made the object a master.
abbrev pub registered_entry : ℕ → ℕ → Entry
registered_entry version type_id = record {
  version = version;
  type_id = type_id;
  instance = some (record { version = version; is_master = true });
}

-- register_ of an object with this identifier and version; its result and the map
unfoldable pub register : ℕ → ℕ → ℕ → MapState → Bool × MapState
register id version type_id m = if has_entry id m.map_items then (false, m) else (
  true,
  record m {
    map_items = put_entry id (registered_entry version type_id) m.map_items;
    masters = m.masters ++ id ∷ [];
    added = m.added ++ id ∷ [];
  },
)

unfoldable pub deregister : ℕ → MapState → Bool × MapState
deregister id m =
    if has_entry id m.map_items && contains m.masters id
    then (
      true,
      record m {
        map_items = erase_entry id m.map_items;
        masters = erase_id id m.masters;
        removed = m.removed ++ id ∷ [];
      },
    )
    else (false, m)

-- _commitMasters, with what the commits of the dirty masters return
unfoldable pub commit_masters : List (ℕ × ℕ) → MapState → MapState
commit_masters [] m = m
commit_masters (ov ∷ ovs) m =
    let e = entry_at ov.0 m.map_items in
    let same = commit_masters ovs (record m { map_items = put_entry ov.0 e m.map_items }) in
    let other = commit_masters ovs (record m {
      map_items = put_entry ov.0 (record e { version = ov.1 }) m.map_items;
      changed = m.changed ++ ov ∷ [];
    }) in
    if e.version == ov.1 then same else other

-- What serialize writes for the dirty bits of added, removed and changed objects; a bit is set when
-- the list is not empty.
pub record Delta : Type 0 where
  pub delta_added : List MapItem
  pub delta_removed : List ℕ
  pub delta_changed : List (ℕ × ℕ)

-- The loop over the added identifiers reads the map by operator [].
unfoldable pub write_added : List ℕ → List MapItem → List MapItem × List MapItem
write_added [] is = ([], is)
write_added (id ∷ ids) is =
    let e = entry_at id is in
    let rest = write_added ids (put_entry id e is) in
    (record { id = id; entry = record e { instance = none } } ∷ rest.0, rest.1)

unfoldable pub serialize_delta : MapState → Delta × MapState
serialize_delta m =
    let written = write_added m.added m.map_items in
    (
      record { delta_added = written.0; delta_removed = m.removed; delta_changed = m.changed },
      record m { map_items = written.1 },
    )

-- commit, after its parts
abbrev pub clear_changes : MapState → MapState
clear_changes m = record m { added = []; removed = []; changed = [] }

-- deserialize on the side of a slave
abbrev pub read_added : List MapItem → List MapItem → List MapItem
read_added [] is = is
read_added (a ∷ rest) is = read_added rest (
    put_entry a.id
      (record (entry_at a.id is) { version = a.entry.version; type_id = a.entry.type_id }) is)

abbrev pub read_removed : List ℕ → List MapItem → List MapItem
read_removed [] is = is
read_removed (id ∷ ids) is = read_removed ids (erase_entry id is)

module _ (sync : ℕ → ℕ → ℕ) where
  -- An entry without an instance, or with a master, is kept, as is one whose instance is newer.
  unfoldable pub read_change : Entry → ℕ → ℕ → Entry
  read_change e id version = elim e.instance [
    | none ↦ e
    | some i ↦ if i.is_master || ltb version i.version then e else record e {
      version = sync id version;
      instance = some (record i { version = sync id version });
    }
  ]

  unfoldable pub read_changed : List (ℕ × ℕ) → List MapItem → List MapItem
  read_changed [] is = is
  read_changed (ov ∷ ovs) is =
      read_changed ovs (put_entry ov.0 (read_change (entry_at ov.0 is) ov.0 ov.1) is)

  unfoldable pub deserialize_delta : Delta → List MapItem → List MapItem
  deserialize_delta d is =
      read_changed d.delta_changed (read_removed d.delta_removed (read_added d.delta_added is))
