-- ===== src/Cache/Sizes/Found.antt =====
-- co/instanceCache.cpp: an item of the cache and the size of the rest.
use collage.Prelude.{
  ℕ, ◌+◌, ◌<◌, ◌≡◌, refl, sym, ap, ◌∙◌, inl, inr, false, Option, none, some, List, [], ◌∷◌, arith,
  ◌==◌, if_true, if_false, Bool-cases, u64_mod,
}
use collage.Slave.Versions.{AllReady, VersionStream}
use collage.Cache.Items.{Item, delete_all, find_item, put_item, erase_item}
use collage.Cache.Sizes.{ready_size, total_size, NoneArriving, delete_all_lem}

-- An item that is found, and the rest of the cache.
pub record IsFound (id : ℕ) (i : Item) (l : List Item) : Type 0 where
  pub same_id : i.id ≡ id
  pub ready : AllReady i.versions
  pub rest : ℕ
  pub total : total_size l ≡ ready_size i.versions + rest
  pub put : (j : Item) → j.id ≡ id → total_size (put_item j l) ≡ ready_size j.versions + rest
  pub erased : total_size (erase_item id l) ≡ rest

abbrev found_or : Item → Option Item → Item
found_or x none = x
found_or x (some i) = i

IsFound-cons :
    (id : ℕ) (i x : Item) (r : List Item)
    → (x.id == id) ≡ false
    → IsFound id i r
    → IsFound id i (x ∷ r)
unfolding put_item erase_item
IsFound-cons id i x r h f = record {
  same_id = f.same_id;
  ready = f.ready;
  rest = ready_size x.versions + f.rest;
  total = omega (arith, f.total);
  put = λ j e.
      ap total_size (if_false {b = x.id == j.id} (j ∷ r) (x ∷ put_item j r) (ap (◌==◌ x.id) e ∙ h))
      ∙ omega (arith, f.put j e);
  erased =
      ap total_size (if_false {b = x.id == id} r (x ∷ erase_item id r) h) ∙ omega (arith, f.erased);
}

pub find_item-IsFound :
    (id : ℕ) (i : Item) (l : List Item) → NoneArriving l → find_item id l ≡ some i → IsFound id i l
unfolding find_item put_item erase_item
find_item-IsFound id i [] k e = absurd (ground arith)
find_item-IsFound id i (x ∷ r) k e = elim (Bool-cases (x.id == id)) [
  | inl here ↦
      let found : x ≡ i =
        ap (found_or x) (sym (if_true {b = x.id == id} (some x) (find_item id r) here) ∙ e) in
      rw (← found) (record {
        same_id = ground arith;
        ready = k.0;
        rest = total_size r;
        total = refl;
        put = λ j f.
            ap total_size
              (if_true {b = x.id == j.id} (j ∷ r) (x ∷ put_item j r) (ap (◌==◌ x.id) f ∙ here));
        erased = ap total_size (if_true {b = x.id == id} r (x ∷ erase_item id r) here);
      })
  | inr there ↦ IsFound-cons id i x r there (
      find_item-IsFound id i r k.1
        (sym (if_false {b = x.id == id} (some x) (find_item id r) there) ∙ e))
]

pub NoneArriving-put_item :
    (j : Item) (l : List Item) → AllReady j.versions → NoneArriving l → NoneArriving (put_item j l)
unfolding put_item
NoneArriving-put_item j [] h k = (h, tt)
NoneArriving-put_item j (x ∷ r) h k = elim (Bool-cases (x.id == j.id)) [
  | inl here ↦ rw here (h, k.1)
  | inr there ↦ rw there (k.0, NoneArriving-put_item j r h k.1)
]

pub NoneArriving-erase_item :
    (id : ℕ) (l : List Item) → NoneArriving l → NoneArriving (erase_item id l)
unfolding erase_item
NoneArriving-erase_item id [] k = tt
NoneArriving-erase_item id (x ∷ r) k = elim (Bool-cases (x.id == id)) [
  | inl here ↦ rw here k.1
  | inr there ↦ rw there (k.0, NoneArriving-erase_item id r k.1)
]

-- delete_all, on an item beside the rest of the cache.
pub deleted :
    (n : ℕ) (l : List VersionStream) (rest : ℕ)
    → AllReady l
    → n ≡ ready_size l + rest
    → n < u64_mod
    → delete_all n l ≡ rest
deleted n l rest k e h = ap (λ m. delete_all m l) e ∙ delete_all_lem l rest k (omega arith)
