-- ===== src/ObjectMap/Commits.antt =====
-- co/objectMap.cpp: the map of a slave follows the commits of the master's map.
use collage.Prelude.{
  ℕ, ◌≡◌, sym, ap, ◌∙◌, subst, inl, inr, Bool, true, false, ◌&&◌, ◌||◌, none, List, [], ◌∷◌, ◌++◌,
  arith, ◌==◌, if◌then◌else◌, if_true, if_false, Bool-cases, contains, All,
}
use mathlib.Core.Bool.{false≢true}
use collage.ObjectMap.{
  Entry, MapItem, MapState, put_entry, erase_entry, has_entry, registered_entry, register,
  deregister, write_added, serialize_delta, read_added, read_removed, deserialize_delta,
}
use collage.ObjectMap.Lookups.{type_at, is_some, has_entry-type_at, type_at-put, type_at-erase}
use collage.ObjectMap.Changes.{
  has_entry-same, All-changed, type_at-read_added, type_at-read_removed, type_at-read_changed,
}

pub contains-snoc :
    (xs : List ℕ) (id x : ℕ) → contains (xs ++ id ∷ []) x ≡ (contains xs x || (id == x))
contains-snoc [] id x = ground arith
contains-snoc (y ∷ xs) id x = ground (arith, contains-snoc xs id x)

not-same :
    (id x : ℕ) (xs : List ℕ) → contains xs id ≡ false → contains xs x ≡ true → (id == x) ≡ false
not-same id x xs h g = elim (Bool-cases (id == x)) [
  | inl e ↦ absurd (false≢true (sym h ∙ ap (contains xs) {x = id} {y = x} (ground (arith, e)) ∙ g))
  | inr e ↦ e
]

-- The map of the master, as it was at the last commit, and what has been done since.
pub record Tracks (start_items : List MapItem) (m : MapState) : Type 0 where
  pub present : All (λ i. has_entry i m.map_items ≡ true) m.added
  pub kept :
      (x : ℕ)
      → contains m.removed x ≡ false
      → contains m.added x ≡ false
      → type_at x m.map_items ≡ type_at x start_items
  pub gone : (x : ℕ) → contains m.removed x ≡ true → type_at x m.map_items ≡ none

-- Registrations and deregistrations since a commit, of which no object undergoes both.
pub data Registrations (start_items : List MapItem) : MapState → Type 0 where
  committed :
      (m : MapState)
      → m.map_items ≡ start_items
      → m.added ≡ []
      → m.removed ≡ []
      → Registrations start_items m
  registers :
      (m : MapState) (id version type_id : ℕ)
      → Registrations start_items m
      → contains m.removed id ≡ false
      → Registrations start_items (register id version type_id m).1
  deregisters :
      (m : MapState) (id : ℕ)
      → Registrations start_items m
      → contains m.added id ≡ false
      → Registrations start_items (deregister id m).1

module _ (start_items : List MapItem) where
  All-put :
      (ids : List ℕ) (id : ℕ) (e : Entry) (is : List MapItem)
      → All (λ i. has_entry i is ≡ true) ids
      → All (λ i. has_entry i (put_entry id e is) ≡ true) (ids ++ id ∷ [])
  All-put [] id e is h = (
    has_entry-type_at id (put_entry id e is)
        ∙ ap is_some (type_at-put id id e is ∙ if_true {b = id == id} _ _ (ground arith)),
    tt,
  )
  All-put (i ∷ ids) id e is h = (
    has_entry-type_at i (put_entry id e is)
        ∙ ap is_some (type_at-put i id e is)
        ∙ elim (Bool-cases (id == i)) [
          | inl g ↦ ap is_some (if_true _ _ g)
          | inr g ↦ ap is_some (if_false _ _ g) ∙ sym (has_entry-type_at i is) ∙ h.0
        ],
    All-put ids id e is h.1,
  )

  All-erase :
      (ids : List ℕ) (id : ℕ) (is : List MapItem)
      → contains ids id ≡ false
      → All (λ i. has_entry i is ≡ true) ids
      → All (λ i. has_entry i (erase_entry id is) ≡ true) ids
  All-erase [] id is h g = tt
  All-erase (i ∷ ids) id is h g =
      let other : (id == i) ≡ false = ground (arith, h) in
      (
        has_entry-same i is (erase_entry id is) (sym (type_at-erase i id is ∙ if_false _ _ other))
            g.0,
        All-erase ids id is (ground (arith, h)) g.1,
      )

  abbrev After : Bool × MapState → Type 0
  After r = Tracks start_items r.1

  Tracks-register :
      (m : MapState) (id version type_id : ℕ)
      → Tracks start_items m
      → contains m.removed id ≡ false
      → After (register id version type_id m)
  unfolding register
  Tracks-register m id version type_id h fresh = elim (Bool-cases (has_entry id m.map_items)) [
    | inl e ↦ subst After (sym (if_true _ _ e)) h
    | inr e ↦
        let new = registered_entry version type_id in
        let put : (x : ℕ)
            → (id == x) ≡ false
            → type_at x (put_entry id new m.map_items) ≡ type_at x m.map_items =
          λ x other. type_at-put x id new m.map_items ∙ if_false _ _ other in
        subst After (sym (if_false _ _ e)) (record {
          present = All-put m.added id new m.map_items h.present;
          kept = λ x r a.
              put x (ground (arith, a, contains-snoc m.added id x))
              ∙ h.kept x r (ground (arith, a, contains-snoc m.added id x));
          gone = λ x r. put x (not-same id x m.removed fresh r) ∙ h.gone x r;
        })
  ]

  Tracks-deregister :
      (m : MapState) (id : ℕ)
      → Tracks start_items m
      → contains m.added id ≡ false
      → After (deregister id m)
  unfolding deregister
  Tracks-deregister m id h fresh =
      elim (Bool-cases (has_entry id m.map_items && contains m.masters id)) [
        | inl e ↦
            let erased : (x : ℕ)
                → (id == x) ≡ false
                → type_at x (erase_entry id m.map_items) ≡ type_at x m.map_items =
              λ x other. type_at-erase x id m.map_items ∙ if_false _ _ other in
            subst After (sym (if_true _ _ e)) (record {
              present = All-erase m.added id m.map_items fresh h.present;
              kept = λ x r a.
                  erased x (ground (arith, r, contains-snoc m.removed id x))
                  ∙ h.kept x (ground (arith, r, contains-snoc m.removed id x)) a;
              gone = λ x r. elim (Bool-cases (id == x)) [
                | inl same ↦ type_at-erase x id m.map_items ∙ if_true _ _ same
                | inr other ↦
                    erased x other
                    ∙ h.gone x (ground (arith, r, other, contains-snoc m.removed id x))
              ];
            })
        | inr e ↦ subst After (sym (if_false _ _ e)) h
      ]

  Registrations-Tracks : (m : MapState) → Registrations start_items m → Tracks start_items m
  Registrations-Tracks m (committed _ same added removed) = record {
    present = subst (All (λ i. has_entry i m.map_items ≡ true)) (sym added) tt;
    kept = λ x r a. ap (type_at x) same;
    gone = λ x r. absurd (false≢true (ap (λ l. contains l x) (sym removed) ∙ r));
  }
  Registrations-Tracks _ (registers m id version type_id h fresh) =
      Tracks-register m id version type_id (Registrations-Tracks m h) fresh
  Registrations-Tracks _ (deregisters m id h fresh) =
      Tracks-deregister m id (Registrations-Tracks m h) fresh

  follows :
      (m : MapState)
      → Tracks start_items m
      → (slave_items : List MapItem) → ((y : ℕ) → type_at y slave_items ≡ type_at y start_items)
      → (y : ℕ)
      → (if contains m.removed y
          then none
          else if contains m.added y
          then type_at y m.map_items
          else type_at y slave_items)
        ≡ type_at y m.map_items
  follows m t slave_items agree y = elim (Bool-cases (contains m.removed y)) [
    | inl r ↦ if_true _ _ r ∙ sym (t.gone y r)
    | inr r ↦ if_false _ _ r ∙ elim (Bool-cases (contains m.added y)) [
      | inl a ↦ if_true _ _ a
      | inr a ↦ if_false _ _ a ∙ agree y ∙ sym (t.kept y r a)
    ]
  ]

  -- A slave whose map has the objects and types of the master's at the last commit has those of the
  -- master's map after reading the changes of the next one, if no object was both registered and
  -- deregistered since, and every changed object is in the map.
  pub deserialize_delta-follows :
      (sync : ℕ → ℕ → ℕ) (m : MapState) (slave_items : List MapItem) (x : ℕ)
      → Registrations start_items m
      → All (λ ov. has_entry ov.0 m.map_items ≡ true) m.changed
      → ((y : ℕ) → type_at y slave_items ≡ type_at y start_items)
      → type_at x (deserialize_delta sync (serialize_delta m).0 slave_items) ≡ type_at x m.map_items
  unfolding deserialize_delta serialize_delta
  deserialize_delta-follows sync m slave_items x h changed agree =
      let t = Registrations-Tracks m h in
      let read =
        read_removed m.removed (read_added (write_added m.added m.map_items).0 slave_items) in
      let same : (y : ℕ) → type_at y read ≡ type_at y m.map_items = λ y.
        type_at-read_removed y m.removed _
        ∙ ap (λ o. if contains m.removed y then none else o)
            (type_at-read_added y m.added m.map_items slave_items t.present)
        ∙ follows m t slave_items agree y in
      type_at-read_changed sync x m.changed read
        (All-changed m.changed m.map_items read (λ y. sym (same y)) changed)
      ∙ same x
