-- ===== src/ObjectMap/Changes.antt =====
-- co/objectMap.cpp: what a slave makes of the changes of a commit.
use collage.Prelude.{
  ℕ, ◌≡◌, refl, sym, ap, ◌∙◌, inl, inr, Bool, true, false, ◌||◌, Option, none, some, List, [], ◌∷◌,
  arith, ltb, ◌==◌, if◌then◌else◌, if_true, if_false, Bool-cases, Option-cases, contains, All,
}
use collage.ObjectMap.{
  Entry, MapItem, put_entry, erase_entry, has_entry, entry_at, write_added, read_added,
  read_removed, read_change, read_changed,
}
use collage.ObjectMap.Lookups.{
  type_at, is_some, has_entry-type_at, entry_at-type_at, type_at-put, type_at-erase,
}

-- An entry that is put back leaves the map as it is.
pub type_at-put_same :
    (x id : ℕ) (is : List MapItem)
    → has_entry id is ≡ true
    → type_at x (put_entry id (entry_at id is) is) ≡ type_at x is
type_at-put_same x id is h = type_at-put x id (entry_at id is) is ∙ elim (Bool-cases (id == x)) [
  | inl e ↦
      if_true _ _ e
      ∙ entry_at-type_at id is h
      ∙ ap (λ k. type_at k is) {x = id} {y = x} (ground (arith, e))
  | inr e ↦ if_false _ _ e
]

pub has_entry-same :
    (x : ℕ) (is js : List MapItem)
    → type_at x is ≡ type_at x js
    → has_entry x is ≡ true
    → has_entry x js ≡ true
has_entry-same x is js e h =
    has_entry-type_at x js ∙ ap is_some (sym e) ∙ sym (has_entry-type_at x is) ∙ h

All-has_entry-same :
    (ids : List ℕ) (is js : List MapItem)
    → ((x : ℕ) → type_at x is ≡ type_at x js)
    → All (λ i. has_entry i is ≡ true) ids
    → All (λ i. has_entry i js ≡ true) ids
All-has_entry-same [] is js e h = tt
All-has_entry-same (i ∷ ids) is js e h =
    (has_entry-same i is js (e i) h.0, All-has_entry-same ids is js e h.1)

join_if :
    {A : Type 0} (b c : Bool) (u v : A)
    → (if b then u else if c then u else v) ≡ (if c || b then u else v)
join_if true true u v = refl
join_if true false u v = refl
join_if false true u v = refl
join_if false false u v = refl

same_if : {A : Type 0} (b : Bool) (u : A) → (if b then u else u) ≡ u
same_if true u = refl
same_if false u = refl

pub All-changed :
    (ovs : List (ℕ × ℕ)) (is js : List MapItem)
    → ((x : ℕ) → type_at x is ≡ type_at x js)
    → All (λ ov. has_entry ov.0 is ≡ true) ovs
    → All (λ ov. has_entry ov.0 js ≡ true) ovs
All-changed [] is js e h = tt
All-changed (ov ∷ ovs) is js e h =
    (has_entry-same ov.0 is js (e ov.0) h.0, All-changed ovs is js e h.1)

type_if :
    (x id : ℕ) (is : List MapItem) (o : Option ℕ)
    → has_entry id is ≡ true
    → (if id == x then some (entry_at id is).type_id else o) ≡ (if id == x then type_at x is else o)
type_if x id is o h = elim (Bool-cases (id == x)) [
  | inl e ↦
      ap (λ t. if id == x then t else o)
        (entry_at-type_at id is h ∙ ap (λ k. type_at k is) {x = id} {y = x} (ground (arith, e)))
  | inr e ↦ if_false _ _ e ∙ sym (if_false _ _ e)
]

-- What the added objects are read as.
pub type_at-read_added :
    (x : ℕ) (ids : List ℕ) (is s : List MapItem)
    → All (λ i. has_entry i is ≡ true) ids
    → type_at x (read_added (write_added ids is).0 s)
      ≡ (if contains ids x then type_at x is else type_at x s)
unfolding write_added
type_at-read_added x [] is s h = refl
type_at-read_added x (id ∷ ids) is s h =
    let put = put_entry id (entry_at id is) is in
    let e : Entry = record (entry_at id s) {
      version = (entry_at id is).version;
      type_id = (entry_at id is).type_id;
    } in
    let old : Option ℕ = type_at x s in
    type_at-read_added x ids put (put_entry id e s)
      (All-has_entry-same ids is put (λ k. sym (type_at-put_same k id is h.0)) h.1)
    ∙ ap (λ o. if contains ids x then o else type_at x (put_entry id e s))
        (type_at-put_same x id is h.0)
    ∙ ap (λ o. if contains ids x then type_at x is else o)
        (type_at-put x id e s ∙ type_if x id is old h.0)
    ∙ join_if (contains ids x) (id == x) (type_at x is) old

pub type_at-read_removed :
    (x : ℕ) (ids : List ℕ) (s : List MapItem)
    → type_at x (read_removed ids s) ≡ (if contains ids x then none else type_at x s)
type_at-read_removed x [] s = refl
type_at-read_removed x (id ∷ ids) s =
    type_at-read_removed x ids (erase_entry id s)
    ∙ ap (λ o. if contains ids x then none else o) (type_at-erase x id s)
    ∙ join_if (contains ids x) (id == x) none (type_at x s)

module _ (sync : ℕ → ℕ → ℕ) where
  read_change-type_id :
      (e : Entry) (id version : ℕ) → (read_change sync e id version).type_id ≡ e.type_id
  unfolding read_change
  read_change-type_id e id version = elim (Option-cases e.instance) [
    | inl h ↦ rw (h, read_change) refl
    | inr (i, h) ↦
        rw (h, read_change)
          (elim (Bool-cases (i.is_master || ltb version i.version)) [
            | inl g ↦
                ap (λ f. f.type_id) {x = if i.is_master || ltb version i.version then e else _}
                  (if_true _ _ g)
            | inr g ↦
                ap (λ f. f.type_id) {x = if i.is_master || ltb version i.version then e else _}
                  (if_false _ _ g)
          ])
  ]

  pub type_at-read_changed :
      (x : ℕ) (ovs : List (ℕ × ℕ)) (s : List MapItem)
      → All (λ ov. has_entry ov.0 s ≡ true) ovs
      → type_at x (read_changed sync ovs s) ≡ type_at x s
  unfolding read_changed
  type_at-read_changed x [] s h = refl
  type_at-read_changed x (ov ∷ ovs) s h =
      let e = read_change sync (entry_at ov.0 s) ov.0 ov.1 in
      let put = put_entry ov.0 e s in
      let same : (k : ℕ) → type_at k put ≡ type_at k s = λ k.
        type_at-put k ov.0 e s
        ∙ ap (λ t. if ov.0 == k then some t else type_at k s)
            (read_change-type_id (entry_at ov.0 s) ov.0 ov.1)
        ∙ type_if k ov.0 s (type_at k s) h.0
        ∙ same_if (ov.0 == k) (type_at k s) in
      type_at-read_changed x ovs put (All-changed ovs s put (λ k. sym (same k)) h.1) ∙ same x
