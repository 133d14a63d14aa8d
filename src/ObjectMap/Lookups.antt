-- ===== src/ObjectMap/Lookups.antt =====
-- co/objectMap.cpp: the types of the objects in a map.
use collage.Prelude.{
  ℕ, ◌≡◌, refl, sym, ap, ◌∙◌, inl, inr, Bool, true, false, ◌&&◌, Option, none, some, List, [], ◌∷◌,
  arith, ◌==◌, if◌then◌else◌, if_true, if_false, Bool-cases, Option-cases,
}
use mathlib.Core.Bool.{false≢true}
use collage.ObjectMap.{
  Entry, new_entry, MapItem, find_entry, put_entry, erase_entry, has_entry, entry_at,
}

-- The type of an object that is in the map
abbrev pub type_of : Option Entry → Option ℕ
type_of none = none
type_of (some e) = some e.type_id

abbrev pub type_at : ℕ → List MapItem → Option ℕ
type_at x is = type_of (find_entry x is)

abbrev pub is_some : Option ℕ → Bool
is_some none = false
is_some (some n) = true

pub has_entry-type_at : (x : ℕ) (is : List MapItem) → has_entry x is ≡ is_some (type_at x is)
has_entry-type_at x is = by_entry (find_entry x is)
  where
    by_entry :
        (o : Option Entry)
        → elim o as (λ _. Bool) [ none ↦ false | some e ↦ true ] ≡ is_some (type_of o)
    by_entry none = refl
    by_entry (some e) = refl

abbrev entry_of : Option Entry → Entry
entry_of none = new_entry
entry_of (some e) = e

pub entry_at-type_at :
    (x : ℕ) (is : List MapItem)
    → has_entry x is ≡ true
    → some (entry_at x is).type_id ≡ type_at x is
entry_at-type_at x is h = elim (Option-cases (find_entry x is)) [
  | inl e ↦
      absurd (false≢true (sym (ap (λ o. is_some (type_of o)) e) ∙ sym (has_entry-type_at x is) ∙ h))
  | inr (f, e) ↦ ap (λ o. some (entry_of o).type_id) e ∙ sym (ap type_of e)
]

if_else :
    {A : Type 0} (b : Bool) (a y z : A)
    → (b ≡ false → y ≡ z)
    → (if b then a else y) ≡ (if b then a else z)
if_else true a y z h = refl
if_else false a y z h = h refl

swap_if :
    {A : Type 0} (b c : Bool) (u v w : A)
    → (b && c) ≡ false
    → (if b then u else if c then v else w) ≡ (if c then v else if b then u else w)
swap_if true true u v w h = absurd (ground arith)
swap_if true false u v w h = refl
swap_if false c u v w h = refl

type_at-cons :
    (x : ℕ) (i : MapItem) (is : List MapItem)
    → type_at x (i ∷ is) ≡ (if i.id == x then some i.entry.type_id else type_at x is)
type_at-cons x i is = elim (Bool-cases (i.id == x)) [
  | inl h ↦ ap type_of (if_true _ _ h) ∙ sym (if_true _ _ h)
  | inr h ↦ ap type_of (if_false _ _ h) ∙ sym (if_false _ _ h)
]

type_at-other :
    (x : ℕ) (i : MapItem) (is : List MapItem)
    → (i.id == x) ≡ false
    → type_at x (i ∷ is) ≡ type_at x is
type_at-other x i is h = type_at-cons x i is ∙ if_false _ _ h

pub type_at-put :
    (x id : ℕ) (e : Entry) (is : List MapItem)
    → type_at x (put_entry id e is) ≡ (if id == x then some e.type_id else type_at x is)
type_at-put x id e [] = type_at-cons x (record { id = id; entry = e }) []
type_at-put x id e (i ∷ is) = elim (Bool-cases (i.id == id)) [
  | inl h ↦
      ap (type_at x) (if_true _ _ h)
      ∙ type_at-cons x (record { id = id; entry = e }) is
      ∙ if_else (id == x) (some e.type_id) (type_at x is) (type_at x (i ∷ is))
          (λ other. sym (type_at-other x i is (ground (arith, h, other))))
  | inr h ↦
      ap (type_at x) (if_false _ _ h)
      ∙ type_at-cons x i (put_entry id e is)
      ∙ ap (λ o. if i.id == x then some i.entry.type_id else o) (type_at-put x id e is)
      ∙ swap_if (i.id == x) (id == x) (some i.entry.type_id) (some e.type_id) (type_at x is)
          (ground (arith, h))
      ∙ ap (λ o. if id == x then some e.type_id else o) (sym (type_at-cons x i is))
]

pub type_at-erase :
    (x id : ℕ) (is : List MapItem)
    → type_at x (erase_entry id is) ≡ (if id == x then none else type_at x is)
type_at-erase x id [] = elim (Bool-cases (id == x)) [
  | inl h ↦ sym (if_true _ _ h)
  | inr h ↦ sym (if_false _ _ h)
]
type_at-erase x id (i ∷ is) = elim (Bool-cases (i.id == id)) [
  | inl h ↦
      ap (type_at x) (if_true _ _ h)
      ∙ type_at-erase x id is
      ∙ if_else (id == x) none (type_at x is) (type_at x (i ∷ is))
          (λ other. sym (type_at-other x i is (ground (arith, h, other))))
  | inr h ↦
      ap (type_at x) (if_false _ _ h)
      ∙ type_at-cons x i (erase_entry id is)
      ∙ ap (λ o. if i.id == x then some i.entry.type_id else o) (type_at-erase x id is)
      ∙ swap_if (i.id == x) (id == x) (some i.entry.type_id) none (type_at x is) (ground (arith, h))
      ∙ ap (λ o. if id == x then none else o) (sym (type_at-cons x i is))
]
