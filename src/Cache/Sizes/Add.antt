-- ===== src/Cache/Sizes/Add.antt =====
-- co/instanceCache.cpp: the size in add, for a version that arrives in one command.
use collage.Prelude.{
  ℕ, ◌+◌, ◌<◌, ◌≡◌, refl, sym, ap, ◌∙◌, subst, ◌≢◌, inl, inr, true, some, List, [], ◌∷◌, ◌++◌,
  arith, if_true, Option-cases, All-append, u64_mod,
}
use collage.Master.State.{version_invalid}
use collage.Slave.Versions.{
  AllReady, DataCommand, VersionStream, empty_stream, is_ready, get_data_size, get_pending_version,
  last_version, add_data_command, data_size,
}
use collage.Cache.Items.{Item, Cache}
use collage.Cache.Operations.{
  ObjectVersion, item_for, claim_item, back_stream, open_stream, add_to_back, count_back, refuse,
  store_command, add,
}
use collage.Cache.Sizes.{ready_size, IsSized}
use collage.Cache.Sizes.Evict.{release_items-IsSized}
use collage.Cache.Sizes.Found.{NoneArriving-put_item}
use collage.Cache.Sizes.Claims.{
  ready_size-append, IsClaimed, IsPlace, item_for-IsPlace, claim_item-Claims, IsOpened,
  open_stream-Opens,
}

add_to_back-last :
    (vs : List VersionStream) (s : VersionStream) (command : DataCommand)
    → add_to_back (vs ++ s ∷ []) command ≡ vs ++ add_data_command s command ∷ []
unfolding add_to_back
add_to_back-last [] s command = refl
add_to_back-last (t ∷ []) s command = refl
add_to_back-last (t ∷ u ∷ r) s command = ap (◌∷◌ t) (add_to_back-last (u ∷ r) s command)

back_stream-last :
    (vs : List VersionStream) (s : VersionStream) → back_stream (vs ++ s ∷ []) ≡ some s
unfolding back_stream
back_stream-last [] s = refl
back_stream-last (t ∷ []) s = refl
back_stream-last (t ∷ u ∷ r) s = back_stream-last (u ∷ r) s

-- A new stream with a command that is the last one of its version.
abbrev full_stream : DataCommand → VersionStream
full_stream command = record { commands = command ∷ []; version = command.version }

add_data_command-full :
    (command : DataCommand)
    → command.is_last ≡ true
    → add_data_command empty_stream command ≡ full_stream command
unfolding add_data_command get_pending_version last_version
add_data_command-full command h = if_true _ _ h

full_stream-ready :
    (command : DataCommand)
    → command.version ≢ version_invalid
    → is_ready (full_stream command) ≡ true
unfolding is_ready
full_stream-ready command h = ground (arith, h)

get_data_size-full : (command : DataCommand) → get_data_size (full_stream command) ≡ command.size
unfolding get_data_size data_size
get_data_size-full command = omega arith

count_back-full :
    (size : ℕ) (vs : List VersionStream) (command : DataCommand)
    → command.version ≢ version_invalid
    → size + command.size < u64_mod
    → count_back size (vs ++ full_stream command ∷ []) ≡ size + command.size
unfolding count_back
count_back-full size vs command v h =
    rw (back_stream-last vs (full_stream command), count_back)
      (if_true _ _ (full_stream-ready command v) ∙ omega (arith, get_data_size-full command))

module _ (target : ℕ → ℕ) where
  store_command-IsSized :
      (c : Cache) (id rest size : ℕ) (i j : Item) (command : DataCommand)
      → IsSized c
      → IsPlace id rest i c.items
      → IsOpened id rest c.size size j
      → command.is_last ≡ true
      → command.version ≢ version_invalid
      → c.size + command.size < u64_mod
      → IsSized (store_command target c size j command).0
  unfolding store_command
  store_command-IsSized c id rest size i j command v place o last valid fits =
      let full : add_to_back j.versions command ≡ o.older ++ full_stream command ∷ [] =
        ap (λ vs. add_to_back vs command) o.versions
        ∙ add_to_back-last o.older empty_stream command
        ∙ ap (λ s. o.older ++ s ∷ []) (add_data_command-full command last) in
      let counted : count_back size (add_to_back j.versions command) ≡ size + command.size =
        ap (count_back size) full
        ∙ count_back-full size o.older command valid (omega (arith, fits, o.less)) in
      let stream_ready = full_stream-ready command valid in
      let ready : AllReady (add_to_back j.versions command) = subst AllReady (sym full) (
        All-append (λ s. is_ready s ≡ true) o.older (full_stream command ∷ []) o.ready
          (stream_ready, tt)) in
      let bytes : ready_size (add_to_back j.versions command) ≡ ready_size o.older + command.size =
        ap ready_size full
        ∙ ready_size-append o.older (full_stream command ∷ [])
        ∙ rw stream_ready (omega (arith, get_data_size-full command)) in
      let stored : Item = record j { versions = add_to_back j.versions command } in
      release_items-IsSized target 0 _ (
        release_items-IsSized target 1 _ (record {
          total = omega (arith, counted, place.put stored o.same_id, bytes, o.total);
          ready = NoneArriving-put_item stored c.items ready v.ready;
          bound = omega (arith, counted, fits, o.less);
        }))

  refuse-IsSized :
      (c : Cache) (id rest size : ℕ) (i j : Item)
      → IsSized c
      → IsPlace id rest i c.items
      → IsClaimed id rest c.size size j
      → IsSized (refuse c size j).0
  unfolding refuse
  refuse-IsSized c id rest size i j v place k = record {
    total = omega (arith, place.put j k.same_id, k.total);
    ready = NoneArriving-put_item j c.items k.ready v.ready;
    bound = omega (arith, k.less, v.bound);
  }

  -- A whole version that arrives in one command, while no other is arriving, is stored or refused so
  -- that the size of the cache is that of its versions afterwards, and every version is complete.
  pub add-IsSized :
      (c : Cache) (rev : ObjectVersion) (instance_id node usage now : ℕ) (command : DataCommand)
      → IsSized c
      → command.is_last ≡ true
      → command.version ≢ version_invalid
      → c.size + command.size < u64_mod
      → IsSized (add target c rev instance_id node usage now command).0
  unfolding add
  add-IsSized c rev instance_id node usage now command v last valid fits =
      let i = item_for c rev.identifier instance_id node in
      let (rest, place) = item_for-IsPlace c rev.identifier instance_id node v.ready in
      let claims =
        claim_item-Claims rev.identifier rest c.size i instance_id node usage
          (record {
            same_id = place.same_id;
            ready = place.ready;
            total = v.total ∙ place.total;
            less = omega arith;
          })
          v.bound in
      elim (Option-cases (claim_item c.size i instance_id node usage)) [
        | inl closed ↦ rw (closed, add) v
        | inr ((size, j), claimed) ↦
            let k : IsClaimed rev.identifier rest c.size size j = rw claimed at claims in
            let opens =
              open_stream-Opens rev.identifier rest c.size size now rev.version j k
                (omega (arith, k.less, v.bound)) in
            rw (claimed, add)
              (elim (Option-cases (open_stream size now rev.version j)) [
                | inl closed ↦
                    rw (closed, add) (refuse-IsSized c rev.identifier rest size i j v place k)
                | inr ((size', o), opened) ↦
                    rw (opened, add)
                      (store_command-IsSized c rev.identifier rest size' i o command v place
                        (rw opened at opens) last valid fits)
              ])
      ]
