-- ===== src/Tests/Cache.antt =====
-- A cache that is over its maximum.
use collage.Prelude.{
  pos, ltb, ◌&&◌, ◌<◌, ℕ, ◌+◌, ◌*◌, ◌/◌, ◌≤◌, ◌<◌, ◌≡◌, refl, ◌⊎◌, true, false, [], ◌∷◌, arith, All,
  u64_mod,
}
use collage.Master.State.{version_invalid}
use collage.Slave.Versions.{DataCommand, VersionStream, is_ready, get_data_size, data_size}
use collage.Cache.Items.{Item, Cache, new_cache, find_item}
use collage.Cache.Evict.{may_release, release_progress, release_items}
use collage.Cache.Evict.Bound.{release_items-bound}
use collage.Cache.Evict.Pinned.{IsPinned, release_items-IsPinned}
use collage.Cache.Operations.{ObjectVersion, add, release, lookup, erase, remove, expire}
use collage.Cache.Pinned.{cleanup-IsPinned}
use collage.Cache.Pinned.Others.{others-IsPinned}
use collage.Cache.Sizes.{total_size, IsSized}
use collage.Cache.Sizes.Arriving.{release_items_arriving}
use collage.Cache.History.{Step, Reach, history-IsSized}

-- A parameter of the model: 80%, rounded down.
abbrev most : ℕ → ℕ
most max_size = max_size * 4 / 5

abbrev command : ℕ → DataCommand
command version = record {
  version = version;
  sequence = 0;
  is_last = true;
  is_instance = true;
  payload = version ∷ [];
  size = 60;
}

abbrev stream : ℕ → VersionStream
stream version = record { commands = command version ∷ []; version = version }

abbrev item : ℕ → ℕ → Item
item id access = record {
  id = id;
  master_instance_id = 1;
  versions = stream 1 ∷ stream 2 ∷ [];
  used = 1;
  access = access;
  from = 20;
  times = 5 ∷ 6 ∷ [];
}

-- Item 7 is accessed, item 8 is not.
abbrev cache : Cache
cache = record { items = item 7 1 ∷ item 8 0 ∷ []; max_size = 100; size = 240 }

release_items-bound_example :
    ((240 ≤ 100) × (release_items most 1 cache ≡ cache))
    ⊎ ((100 < 240)
        × (((release_progress most 1 cache).streams_left
              && ltb (most 100) (release_progress most 1 cache).size)
            ≡ false)
        × (((release_items most 1 cache).size ≤ most 100)
            ⊎ All (λ i. may_release 1 i ≡ false) (release_items most 1 cache).items))
release_items-bound_example = release_items-bound most 1 cache

item-IsPinned : IsPinned 7 (item 7 1) cache.items
unfolding find_item
item-IsPinned = record { found = refl; pinned = refl; streams = refl }

release_items-IsPinned_example : IsPinned 7 (item 7 1) (release_items most 0 cache).items
release_items-IsPinned_example = release_items-IsPinned most 0 cache 7 (item 7 1) item-IsPinned

cleanup-IsPinned_example :
    IsPinned 7 (item 7 1) (erase cache 7).0.items
    × IsPinned 7 (item 7 1) (remove cache 20).items
    × IsPinned 7 (item 7 1) (expire cache 100 (pos 50)).items
cleanup-IsPinned_example = cleanup-IsPinned cache 7 7 20 100 (pos 50) (item 7 1) item-IsPinned

abbrev revision : ObjectVersion
revision = record { identifier = 8; version = 3 }

others-IsPinned_example :
    IsPinned 7 (item 7 1) (add most cache revision 1 20 0 7 (command 3)).0.items
    × IsPinned 7 (item 7 1) (release most cache 8 1).0.items
    × IsPinned 7 (item 7 1) (lookup cache 8).0.items
others-IsPinned_example =
    others-IsPinned most cache revision 1 20 0 7 1 7 (item 7 1) (command 3) (λ e. omega (arith, e))
      item-IsPinned

abbrev arriving : VersionStream
arriving = record { commands = command 1 ∷ []; version = version_invalid }

abbrev new_item : Item
new_item = record (item 9 0) { versions = arriving ∷ []; times = 5 ∷ [] }

-- Over its maximum by item 7, which is accessed.
abbrev pressed_cache : Cache
pressed_cache = record { items = new_item ∷ item 7 1 ∷ []; max_size = 100; size = 120 }

release_items_arriving_example :
    (total_size (release_items most 1 pressed_cache).items ≡ total_size pressed_cache.items)
    × ((release_items most 1 pressed_cache).size + 60
        ≡ total_size (release_items most 1 pressed_cache).items)
unfolding is_ready get_data_size data_size may_release
release_items_arriving_example =
    release_items_arriving most 1 pressed_cache new_item arriving (item 7 1 ∷ []) refl refl refl
      refl (refl, tt) (omega arith) (omega arith) refl (omega arith) (omega arith)

abbrev used_cache : Cache
used_cache = (lookup (add most (new_cache 100) revision 1 20 0 7 (command 3)).0 8).0

new_cache-fits : (new_cache 100).size + 60 < u64_mod
unfolding new_cache
new_cache-fits = omega arith

history-IsSized_example : IsSized used_cache
history-IsSized_example = history-IsSized most 100 used_cache (
    Reach.later
      (Reach.later Reach.here
        (Step.adds revision 1 20 0 7 (command 3) refl (λ e. omega (arith, e)) new_cache-fits refl))
      (Step.looks_up 8 refl))
