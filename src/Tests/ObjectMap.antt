-- ===== src/Tests/ObjectMap.antt =====
-- co/objectMap.cpp: a map with two objects, of which one is removed and a third one added.
use collage.Prelude.{true, ℕ, ◌≡◌, refl, none, some, List, [], ◌∷◌}
use collage.ObjectMap.{
  MapItem, MapState, register, deregister, serialize_delta, deserialize_delta, read_changed,
  read_change,
}
use collage.ObjectMap.Lookups.{type_at}
use collage.ObjectMap.Commits.{Registrations, deserialize_delta-follows}
use collage.ObjectMap.Ghosts.{IsGhost, deregistered_comes_back}

abbrev object_of : ℕ → ℕ → MapItem
object_of id type_id = record {
  id = id;
  entry = record {
    version = 1;
    type_id = type_id;
    instance = some (record { version = 1; is_master = true });
  };
}

abbrev items : List MapItem
items = object_of 10 70 ∷ object_of 11 71 ∷ []

abbrev master_map : MapState
master_map = record {
  map_items = items;
  masters = 10 ∷ 11 ∷ [];
  added = [];
  removed = [];
  changed = (11, 4) ∷ [];
}

abbrev changed_map : MapState
changed_map = (deregister 10 (register 12 1 72 master_map).1).1

abbrev newest : ℕ → ℕ → ℕ
newest id version = version

deserialize_delta-follows_example :
    type_at 12 (deserialize_delta newest (serialize_delta changed_map).0 items)
    ≡ type_at 12 changed_map.map_items
unfolding register deregister
deserialize_delta-follows_example =
    deserialize_delta-follows items newest changed_map items 12
      (Registrations.deregisters (register 12 1 72 master_map).1 10
        (Registrations.registers master_map 12 1 72
          (Registrations.committed master_map refl refl refl) refl)
        refl)
      (refl, tt) (λ y. refl)

deregistered_comes_back_example : IsGhost 12 1 72 (deregister 12 (register 12 1 72 master_map).1).1
deregistered_comes_back_example = deregistered_comes_back master_map 12 1 72 refl

-- An object that is not attached keeps its old version.
version_not_read :
    read_changed newest
      ((10, 5) ∷ [])
      (record { id = 10; entry = record { version = 1; type_id = 70; instance = none } } ∷ [])
    ≡ record { id = 10; entry = record { version = 1; type_id = 70; instance = none } } ∷ []
unfolding read_changed read_change
version_not_read = refl

-- Nor does an entry with a master, which an error message reports.
master_not_read : read_changed newest ((10, 5) ∷ []) (object_of 10 70 ∷ []) ≡ object_of 10 70 ∷ []
unfolding read_changed read_change
master_not_read = refl
