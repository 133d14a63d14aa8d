-- ===== src/Cache/History.antt =====
-- co/instanceCache.cpp: sequences of the operations of a cache.
use collage.Prelude.{ℤ, ℕ, ◌+◌, ◌<◌, ◌≡◌, ◌≢◌, true, arith, u64_mod}
use collage.Master.State.{version_invalid}
use collage.Slave.Versions.{DataCommand}
use collage.Cache.Items.{Cache, new_cache}
use collage.Cache.Operations.{ObjectVersion, add, release, lookup, erase, remove, expire}
use collage.Cache.Sizes.{IsSized}
use collage.Cache.Sizes.Operations.{
  remove-IsSized, expire-IsSized, erase-IsSized, release-IsSized, lookup-IsSized,
}
use collage.Cache.Sizes.Add.{add-IsSized}

module _ (target : ℕ → ℕ) where
  -- An operation on the cache; a version is added by one command that has all of it.
  pub data Step (c next : Cache) : Type 0 where
    adds :
        (rev : ObjectVersion) (instance_id node usage now : ℕ) (command : DataCommand)
        → command.is_last ≡ true
        → command.version ≢ version_invalid
        → c.size + command.size < u64_mod
        → next ≡ (add target c rev instance_id node usage now command).0
        → Step c next
    looks_up : (id : ℕ) → next ≡ (lookup c id).0 → Step c next
    releases : (id count : ℕ) → next ≡ (release target c id count).0 → Step c next
    erases : (id : ℕ) → next ≡ (erase c id).0 → Step c next
    removes : (node : ℕ) → next ≡ remove c node → Step c next
    expires : (now : ℕ) (timeout : ℤ) → next ≡ expire c now timeout → Step c next

  pub data Reach (c : Cache) : Cache → Type 0 where
    here : Reach c c
    later : {next last : Cache} → Reach c next → Step next last → Reach c last

  Step-IsSized : (c next : Cache) → Step c next → IsSized c → IsSized next
  Step-IsSized c next (adds rev instance_id node usage now command last valid fits e) v =
      rw e (add-IsSized target c rev instance_id node usage now command v last valid fits)
  Step-IsSized c next (looks_up id e) v = rw e (lookup-IsSized c id v)
  Step-IsSized c next (releases id count e) v = rw e (release-IsSized target c id count v)
  Step-IsSized c next (erases id e) v = rw e (erase-IsSized c id v)
  Step-IsSized c next (removes node e) v = rw e (remove-IsSized c node v)
  Step-IsSized c next (expires now timeout e) v = rw e (expire-IsSized c now timeout v)

  Reach-IsSized : {c next : Cache} → IsSized c → Reach c next → IsSized next
  Reach-IsSized v here = v
  Reach-IsSized v (later r s) = Step-IsSized _ _ s (Reach-IsSized v r)

  new_cache-IsSized : (max_size : ℕ) → IsSized (new_cache max_size)
  unfolding new_cache
  new_cache-IsSized max_size = record { total = omega arith; ready = tt; bound = omega arith }

  -- From an empty cache, after any sequence of lookups, releases, erasures, removals, expirations and
  -- additions of whole versions that fit a 64-bit size: the size of the cache is that of the versions
  -- that it holds, and all of them are complete.
  pub history-IsSized : (max_size : ℕ) (c : Cache) → Reach (new_cache max_size) c → IsSized c
  history-IsSized max_size c r = Reach-IsSized (new_cache-IsSized max_size) r
