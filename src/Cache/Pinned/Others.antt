-- ===== src/Cache/Pinned/Others.antt =====
-- co/instanceCache.cpp: accessed items when other objects use the cache.
use collage.Prelude.{
  ℕ, ◌+◌, ◌≡◌, refl, sym, ap, ◌∙◌, ◌≢◌, inl, inr, false, not, ◌||◌, none, some, List, [], ◌∷◌,
  arith, ltb, ◌==◌, if_false, Bool-cases, Option-cases,
}
use collage.Slave.Versions.{DataCommand, get_pending_version, is_ready}
use collage.Cache.Items.{Item, Cache, is_pinned, find_item, put_item}
use collage.Cache.Evict.Pinned.{
  IsPinned, keeps-cons, found_head, tail_found, release_items-IsPinned,
}
use collage.Cache.Operations.{
  ObjectVersion, Change, item_for, claim_item, back_stream, open_stream, refuse, store_command, add,
  release, lookup,
}

put_other-IsPinned :
    (id : ℕ) (i j : Item) (l : List Item)
    → j.id ≢ id
    → IsPinned id i l
    → IsPinned id i (put_item j l)
unfolding put_item find_item
put_other-IsPinned id i j l ne p = record {
  found = go l p.found;
  pinned = p.pinned;
  streams = p.streams;
}
  where
    other : (j.id == id) ≡ false
    other = ground (arith, ne)

    go : (l : List Item) → find_item id l ≡ some i → find_item id (put_item j l) ≡ some i
    go [] k = absurd (ground arith)
    go (x ∷ l) k = elim (Bool-cases (x.id == j.id)) [
      | inl here ↦
          let there : (x.id == id) ≡ false = ground (arith, ne) in
          rw here (if_false {b = j.id == id} _ _ other ∙ tail_found id i x l there k)
      | inr there ↦ rw there (keeps-cons id i x l (put_item j l) (go l) k)
    ]

found-id : (id : ℕ) (i : Item) (l : List Item) → find_item id l ≡ some i → i.id ≡ id
unfolding find_item
found-id id i [] k = absurd (ground arith)
found-id id i (x ∷ l) k = elim (Bool-cases (x.id == id)) [
  | inl here ↦ ap (λ y. y.id) (sym (found_head id i x l here k)) ∙ ground arith
  | inr there ↦ found-id id i l (tail_found id i x l there k)
]

item_for-id : (c : Cache) (id instance_id node : ℕ) → (item_for c id instance_id node).id ≡ id
unfolding item_for
item_for-id c id instance_id node = elim (Option-cases (find_item id c.items)) [
  | inl missing ↦ rw (missing, item_for)
  | inr (i, found) ↦ rw (found, item_for) (found-id id i c.items found)
]

-- The item of a change, if there is one, has the given id.
abbrev HasId : ℕ → Change → Type 0
HasId id none = Unit
HasId id (some (size, i)) = i.id ≡ id

claim_item-HasId :
    (size : ℕ) (i : Item) (instance_id node usage : ℕ)
    → HasId i.id (claim_item size i instance_id node usage)
unfolding claim_item
claim_item-HasId size i instance_id node usage =
    elim (Bool-cases (not (i.master_instance_id == instance_id) || not (i.from == node))) [
      | inl other ↦ elim (Bool-cases (is_pinned i)) [
        | inl pinned ↦ rw (other, pinned) tt
        | inr free ↦ rw (other, free) refl
      ]
      | inr same ↦ rw same refl
    ]

open_stream-HasId : (size now version : ℕ) (i : Item) → HasId i.id (open_stream size now version i)
unfolding open_stream
open_stream-HasId size now version i = elim (Option-cases (back_stream i.versions)) [
  | inl empty ↦ rw (empty, open_stream) refl
  | inr (back, found) ↦
      rw (found, open_stream)
        (elim (Bool-cases (get_pending_version back == version)) [
          | inl same ↦ elim (Bool-cases (is_ready back)) [
            | inl ready ↦ rw (same, ready) tt
            | inr more ↦ rw (same, more) refl
          ]
          | inr other ↦ elim (Bool-cases (ltb version (get_pending_version back))) [
            | inl older ↦ rw (other, older) tt
            | inr newer ↦ elim (Bool-cases (get_pending_version back + 1 == version)) [
              | inl next ↦ rw (other, newer, next) refl
              | inr hole ↦ elim (Bool-cases (is_pinned i)) [
                | inl pinned ↦ rw (other, newer, hole, pinned) tt
                | inr free ↦ rw (other, newer, hole, free) refl
              ]
            ]
          ]
        ])
]

module _ (target : ℕ → ℕ) where
  store_command-IsPinned :
      (c : Cache) (size id : ℕ) (j i : Item) (command : DataCommand)
      → j.id ≢ id
      → IsPinned id i c.items
      → IsPinned id i (store_command target c size j command).0.items
  unfolding store_command
  store_command-IsPinned c size id j i command ne p =
      release_items-IsPinned target 0 _ id i
        (release_items-IsPinned target 1 _ id i (put_other-IsPinned id i _ c.items ne p))

  refuse-IsPinned :
      (c : Cache) (size id : ℕ) (j i : Item)
      → j.id ≢ id
      → IsPinned id i c.items
      → IsPinned id i (refuse c size j).0.items
  unfolding refuse
  refuse-IsPinned c size id j i ne p = put_other-IsPinned id i j c.items ne p

  add-IsPinned :
      (c : Cache) (rev : ObjectVersion) (instance_id node usage now id : ℕ) (i : Item)
      (command : DataCommand)
      → rev.identifier ≢ id
      → IsPinned id i c.items
      → IsPinned id i (add target c rev instance_id node usage now command).0.items
  unfolding add
  add-IsPinned c rev instance_id node usage now id i command ne p =
      let from = item_for c rev.identifier instance_id node in
      let from_id = item_for-id c rev.identifier instance_id node in
      let claims = claim_item-HasId c.size from instance_id node usage in
      elim (Option-cases (claim_item c.size from instance_id node usage)) [
        | inl closed ↦ rw (closed, add) p
        | inr ((size, j), claimed) ↦
            let j_id : j.id ≡ from.id = rw claimed at claims in
            let opens = open_stream-HasId size now rev.version j in
            rw (claimed, add)
              (elim (Option-cases (open_stream size now rev.version j)) [
                | inl closed ↦
                    rw (closed, add)
                      (refuse-IsPinned c size id j i (λ e. ne (sym from_id ∙ sym j_id ∙ e)) p)
                | inr ((size', o), opened) ↦
                    let o_id : o.id ≡ j.id = rw opened at opens in
                    rw (opened, add)
                      (store_command-IsPinned c size' id o i command
                        (λ e. ne (sym from_id ∙ sym j_id ∙ sym o_id ∙ e)) p)
              ])
      ]

  release-IsPinned :
      (c : Cache) (id x count : ℕ) (i : Item)
      → x ≢ id
      → IsPinned id i c.items
      → IsPinned id i (release target c x count).0.items
  unfolding release
  release-IsPinned c id x count i ne p = elim (Option-cases (find_item x c.items)) [
    | inl missing ↦ rw (missing, release) p
    | inr (y, found) ↦
        rw (found, release)
          (release_items-IsPinned target 1 _ id i
            (put_other-IsPinned id i _ c.items (λ e. ne (sym (found-id x y c.items found) ∙ e)) p))
  ]

  lookup-IsPinned :
      (c : Cache) (id x : ℕ) (i : Item)
      → x ≢ id
      → IsPinned id i c.items
      → IsPinned id i (lookup c x).0.items
  unfolding lookup
  lookup-IsPinned c id x i ne p = elim (Option-cases (find_item x c.items)) [
    | inl missing ↦ rw (missing, lookup) p
    | inr (y, found) ↦
        rw (found, lookup)
          (put_other-IsPinned id i _ c.items (λ e. ne (sym (found-id x y c.items found) ∙ e)) p)
  ]

  -- An item that is accessed, and that holds data, stays as it is when data of another object is
  -- added, released or looked up, with the evictions that this causes.
  pub others-IsPinned :
      (c : Cache) (rev : ObjectVersion) (instance_id node usage now count id : ℕ) (i : Item)
      (command : DataCommand)
      → rev.identifier ≢ id
      → IsPinned id i c.items
      → IsPinned id i (add target c rev instance_id node usage now command).0.items
        × IsPinned id i (release target c rev.identifier count).0.items
        × IsPinned id i (lookup c rev.identifier).0.items
  others-IsPinned c rev instance_id node usage now count id i command ne p = (
    add-IsPinned c rev instance_id node usage now id i command ne p,
    release-IsPinned c id rev.identifier count i ne p,
    lookup-IsPinned c id rev.identifier i ne p,
  )
