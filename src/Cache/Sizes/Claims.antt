-- ===== src/Cache/Sizes/Claims.antt =====
-- co/instanceCache.cpp: the item that add works on, before the command is stored.
use collage.Prelude.{
  ℕ, ◌+◌, ◌≤◌, ◌<◌, ◌≡◌, refl, sym, ap, ◌∙◌, inl, inr, Bool, true, not, ◌||◌, Option, none, some,
  List, [], ◌∷◌, ◌++◌, arith, ltb, ◌==◌, if_false, Bool-cases, Option-cases, u64_mod,
}
use collage.Slave.Versions.{AllReady, VersionStream, empty_stream, is_ready, get_pending_version}
use collage.Cache.Items.{Item, Cache, is_pinned, delete_all, release_all, find_item, put_item}
use collage.Cache.Operations.{Change, item_for, claim_item, push_stream, back_stream, open_stream}
use collage.Cache.Sizes.{ready_size, total_size, NoneArriving}
use collage.Cache.Sizes.Found.{find_item-IsFound, deleted}

pub ready_size-append :
    (vs ws : List VersionStream) → ready_size (vs ++ ws) ≡ ready_size vs + ready_size ws
ready_size-append [] ws = omega arith
ready_size-append (s ∷ vs) ws = omega (arith, ready_size-append vs ws)

-- The item that add works on, and the size so far; `rest` is what the other items hold.
pub record IsClaimed (id rest bound size : ℕ) (i : Item) : Type 0 where
  pub same_id : i.id ≡ id
  pub ready : AllReady i.versions
  pub total : size ≡ ready_size i.versions + rest
  pub less : size ≤ bound

-- The place of an item in the cache, which put_item fills.
pub record IsPlace (id rest : ℕ) (i : Item) (l : List Item) : Type 0 where
  pub same_id : i.id ≡ id
  pub ready : AllReady i.versions
  pub total : total_size l ≡ ready_size i.versions + rest
  pub put : (j : Item) → j.id ≡ id → total_size (put_item j l) ≡ ready_size j.versions + rest

missing-put :
    (id : ℕ) (j : Item) (l : List Item)
    → find_item id l ≡ none
    → j.id ≡ id
    → total_size (put_item j l) ≡ ready_size j.versions + total_size l
unfolding find_item put_item
missing-put id j [] h e = omega arith
missing-put id j (x ∷ r) h e = elim (Bool-cases (x.id == id)) [
  | inl here ↦ absurd (ground (arith, h))
  | inr there ↦
      let next : find_item id r ≡ none =
        sym (if_false {b = x.id == id} (some x) (find_item id r) there) ∙ h in
      ap total_size
        (if_false {b = x.id == j.id} (j ∷ r) (x ∷ put_item j r) (ap (◌==◌ x.id) e ∙ there))
      ∙ omega (arith, missing-put id j r next e)
]

pub item_for-IsPlace :
    (c : Cache) (id instance_id node : ℕ)
    → NoneArriving c.items
    → (rest : ℕ) × IsPlace id rest (item_for c id instance_id node) c.items
unfolding item_for
item_for-IsPlace c id instance_id node k = elim (Option-cases (find_item id c.items)) [
  | inl missing ↦
      rw (missing, item_for)
        (
          total_size c.items,
          record {
            same_id = refl;
            ready = tt;
            total = omega arith;
            put = λ j e. missing-put id j c.items missing e;
          },
        )
  | inr (i, found) ↦
      let f = find_item-IsFound id i c.items k found in
      rw (found, item_for)
        (f.rest, record { same_id = f.same_id; ready = f.ready; total = f.total; put = f.put })
]

-- What a step of add returns: a claimed item, if anything.
abbrev pub Claims : ℕ → ℕ → ℕ → Change → Type 0
Claims id rest bound none = Unit
Claims id rest bound (some (size, i)) = IsClaimed id rest bound size i

pub claim_item-Claims :
    (id rest size : ℕ) (i : Item) (instance_id node usage : ℕ)
    → IsClaimed id rest size size i
    → size < u64_mod
    → Claims id rest size (claim_item size i instance_id node usage)
unfolding claim_item
claim_item-Claims id rest size i instance_id node usage c h =
    elim (Bool-cases (not (i.master_instance_id == instance_id) || not (i.from == node))) [
      | inl other ↦ elim (Bool-cases (is_pinned i)) [
        | inl pinned ↦ rw (other, pinned) tt
        | inr free ↦
            let now = deleted size i.versions rest c.ready c.total h in
            rw (other, free)
              (record {
                same_id = c.same_id;
                ready = tt;
                total = omega (arith, now);
                less = omega (arith, now, c.total);
              })
      ]
      | inr same ↦
          rw same (record { same_id = c.same_id; ready = c.ready; total = c.total; less = c.less })
    ]

-- The item with a new stream at the back.
pub record IsOpened (id rest bound size : ℕ) (j : Item) : Type 0 where
  pub same_id : j.id ≡ id
  pub older : List VersionStream
  pub versions : j.versions ≡ older ++ empty_stream ∷ []
  pub ready : AllReady older
  pub total : size ≡ ready_size older + rest
  pub less : size ≤ bound

abbrev pub Opens : ℕ → ℕ → ℕ → Change → Type 0
Opens id rest bound none = Unit
Opens id rest bound (some (size, j)) = IsOpened id rest bound size j

back_stream-ready :
    (vs : List VersionStream) (s : VersionStream)
    → AllReady vs
    → back_stream vs ≡ some s
    → is_ready s ≡ true
unfolding back_stream
back_stream-ready [] s k e = absurd (ground arith)
back_stream-ready (t ∷ []) s k e = ap (is_ready_or t) (sym e) ∙ k.0
  where
    is_ready_or : VersionStream → Option VersionStream → Bool
    is_ready_or t none = is_ready t
    is_ready_or t (some u) = is_ready u
back_stream-ready (t ∷ u ∷ r) s k e = back_stream-ready (u ∷ r) s k.1 e

push-IsOpened :
    (id rest bound size now : ℕ) (i : Item)
    → IsClaimed id rest bound size i
    → IsOpened id rest bound size (push_stream now i)
push-IsOpened id rest bound size now i c = record {
  same_id = c.same_id;
  older = i.versions;
  versions = refl;
  ready = c.ready;
  total = c.total;
  less = c.less;
}

pub open_stream-Opens :
    (id rest bound size now version : ℕ) (i : Item)
    → IsClaimed id rest bound size i
    → size < u64_mod
    → Opens id rest bound (open_stream size now version i)
unfolding open_stream
open_stream-Opens id rest bound size now version i c h =
    elim (Option-cases (back_stream i.versions)) [
      | inl empty ↦ rw (empty, open_stream) (push-IsOpened id rest bound size now i c)
      | inr (back, some_back) ↦
          let ready = back_stream-ready i.versions back c.ready some_back in
          let emptied = deleted size i.versions rest c.ready c.total h in
          rw (some_back, open_stream)
            (elim (Bool-cases (get_pending_version back == version)) [
              | inl same ↦ rw (same, ready) tt
              | inr other ↦ elim (Bool-cases (ltb version (get_pending_version back))) [
                | inl older ↦ rw (other, older) tt
                | inr newer ↦ elim (Bool-cases (get_pending_version back + 1 == version)) [
                  | inl next ↦ rw (other, newer, next) (push-IsOpened id rest bound size now i c)
                  | inr hole ↦ elim (Bool-cases (is_pinned i)) [
                    | inl pinned ↦ rw (other, newer, hole, pinned) tt
                    | inr free ↦
                        rw (other, newer, hole, free)
                          (push-IsOpened id rest bound (delete_all size i.versions) now
                            (release_all i)
                            (record {
                              same_id = c.same_id;
                              ready = tt;
                              total = omega (arith, emptied);
                              less = omega (arith, emptied, c.total, c.less);
                            }))
                  ]
                ]
              ]
            ])
    ]
