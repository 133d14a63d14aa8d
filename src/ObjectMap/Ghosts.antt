-- ===== src/ObjectMap/Ghosts.antt =====
-- co/objectMap.cpp: an object that is registered and deregistered between two commits.
use collage.Prelude.{
  ℕ, ◌≡◌, sym, ap, ◌∙◌, subst, inl, inr, Bool, true, false, ◌&&◌, ◌||◌, List, [], ◌∷◌, ◌++◌, arith,
  ◌==◌, if_true, if_false, Bool-cases, contains,
}
use collage.ObjectMap.{
  Entry, MapItem, MapState, put_entry, erase_entry, has_entry, entry_at, erase_id, registered_entry,
  register, deregister, write_added, serialize_delta, clear_changes,
}
use collage.ObjectMap.Lookups.{is_some, has_entry-type_at, type_at-put, type_at-erase}
use collage.ObjectMap.Commits.{contains-snoc}

has_entry-put :
    (x id : ℕ) (e : Entry) (is : List MapItem)
    → (id == x) || has_entry x is ≡ true
    → has_entry x (put_entry id e is) ≡ true
has_entry-put x id e is h =
    has_entry-type_at x (put_entry id e is)
    ∙ ap is_some (type_at-put x id e is)
    ∙ elim (Bool-cases (id == x)) [
      | inl g ↦ ap is_some (if_true _ _ g)
      | inr g ↦ ap is_some (if_false _ _ g) ∙ sym (has_entry-type_at x is) ∙ ground (arith, h, g)
    ]

written-has_entry :
    (x : ℕ) (ids : List ℕ) (is : List MapItem)
    → contains ids x || has_entry x is ≡ true
    → has_entry x (write_added ids is).1 ≡ true
unfolding write_added
written-has_entry x [] is h = h
written-has_entry x (id ∷ ids) is h =
    written-has_entry x ids (put_entry id (entry_at id is) is) (elim (Bool-cases (contains ids x)) [
      | inl g ↦ ap (λ b. b || has_entry x (put_entry id (entry_at id is) is)) g
      | inr g ↦
          ap (λ b. b || has_entry x (put_entry id (entry_at id is) is)) g
          ∙ has_entry-put x id (entry_at id is) is (ground (arith, h, g))
    ])

-- An identifier of a listed object is refused after the commit.
refused :
    (m : MapState) (id version type_id : ℕ)
    → contains m.added id ≡ true
    → (register id version type_id (clear_changes (serialize_delta m).1)).0 ≡ false
unfolding register serialize_delta
refused m id version type_id h =
    ap (λ (r : Bool × MapState). r.0)
      (if_true _ _
        (written-has_entry id m.added m.map_items (ap (λ b. b || has_entry id m.map_items) h)))

-- The map after the two operations
abbrev registered : ℕ → ℕ → ℕ → MapState → MapState
registered id version type_id m = record m {
  map_items = put_entry id (registered_entry version type_id) m.map_items;
  masters = m.masters ++ id ∷ [];
  added = m.added ++ id ∷ [];
}

register-fresh :
    (m : MapState) (id version type_id : ℕ)
    → has_entry id m.map_items ≡ false
    → register id version type_id m ≡ (true, registered id version type_id m)
unfolding register
register-fresh m id version type_id fresh = if_false _ _ fresh

abbrev deregistered : ℕ → MapState → MapState
deregistered id m = record m {
  map_items = erase_entry id m.map_items;
  masters = erase_id id m.masters;
  removed = m.removed ++ id ∷ [];
}

deregister-known :
    (m : MapState) (id : ℕ)
    → has_entry id m.map_items ≡ true
    → contains m.masters id ≡ true
    → deregister id m ≡ (true, deregistered id m)
unfolding deregister
deregister-known m id h g =
    if_true {b = has_entry id m.map_items && contains m.masters id} _ _ (ground (arith, h, g))

contains-last : (xs : List ℕ) (id : ℕ) → contains (xs ++ id ∷ []) id ≡ true
contains-last xs id = ground (arith, contains-snoc xs id id)

has_entry-erase : (id : ℕ) (is : List MapItem) → has_entry id (erase_entry id is) ≡ false
has_entry-erase id is =
    has_entry-type_at id (erase_entry id is)
    ∙ ap is_some (type_at-erase id id is ∙ if_true {b = id == id} _ _ (ground arith))

-- Not in the map, and refused after the next commit
abbrev pub IsGhost : ℕ → ℕ → ℕ → MapState → Type 0
IsGhost id version type_id m =
    (has_entry id m.map_items ≡ false)
    × ((register id version type_id (clear_changes (serialize_delta m).1)).0 ≡ false)

-- An object that is registered and deregistered again before a commit is not in the map then; the
-- commit puts an entry for it there, so that it cannot be registered afterwards.
pub deregistered_comes_back :
    (m : MapState) (id version type_id : ℕ)
    → has_entry id m.map_items ≡ false
    → IsGhost id version type_id (deregister id (register id version type_id m).1).1
deregistered_comes_back m id version type_id fresh =
    let m1 = registered id version type_id m in
    let present : has_entry id m1.map_items ≡ true =
      has_entry-put id id _ m.map_items
        (ap (λ b. b || has_entry id m.map_items) {x = id == id} {y = true} (ground arith)) in
    let run : (deregister id (register id version type_id m).1).1 ≡ deregistered id m1 =
      ap (λ (r : Bool × MapState). (deregister id r.1).1)
        (register-fresh m id version type_id fresh)
      ∙ ap (λ (r : Bool × MapState). r.1)
          (deregister-known m1 id present (contains-last m.masters id)) in
    subst (IsGhost id version type_id) (sym run) (
      has_entry-erase id m1.map_items,
      refused (deregistered id m1) id version type_id (contains-last m.added id),
    )
