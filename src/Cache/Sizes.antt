-- ===== src/Cache/Sizes.antt =====
-- co/instanceCache.cpp: the size of the cache and what its versions hold.
pub mod Evict
pub mod Found
pub mod Operations
pub mod Claims
pub mod Add
pub mod Arriving
use collage.Prelude.{
  ℕ, ◌+◌, ◌≤◌, ◌<◌, ◌≡◌, refl, ap, ◌∙◌, false, List, [], ◌∷◌, arith, ltb, if◌then◌else◌, length,
  All, u64_mod,
}
use collage.Slave.Versions.{AllReady, VersionStream, is_ready, get_data_size}
use collage.Cache.Items.{
  Item, Cache, has_streams, is_pinned, delete_stream, release_first_size, release_first, delete_all,
  expire_streams, erase_item, find_item,
}
use collage.Cache.Evict.{
  count_streams, release_round, release_keys, release_more, release_progress, drop_empty,
  release_items, Progress, may_release,
}
use collage.Cache.Operations.{erase, remove_from, remove, expire_items, expire}
use collage.Cache.Evict.Rounds.{
  has_work, round_goes, round_stays, keys_goes, keys_stays, more_stops, more_runs,
}

abbrev pub ready_size : List VersionStream → ℕ
ready_size [] = 0
ready_size (s ∷ r) = (if is_ready s then get_data_size s else 0) + ready_size r

abbrev pub total_size : List Item → ℕ
total_size [] = 0
total_size (i ∷ r) = ready_size i.versions + total_size r

pub no_streams-ready_size :
    (vs : List VersionStream) → ltb 0 (length vs) ≡ false → ready_size vs ≡ 0
no_streams-ready_size [] h = refl
no_streams-ready_size (s ∷ r) h = absurd (ground arith)

abbrev pub NoneArriving : List Item → Type 0
NoneArriving l = All (λ i. AllReady i.versions) l

pub delete_stream_lem :
    (s : VersionStream) (rest : ℕ)
    → get_data_size s + rest < u64_mod
    → delete_stream (get_data_size s + rest) s ≡ rest
unfolding delete_stream
delete_stream_lem s rest h = omega arith

-- `rest` is what the other items hold.
pub delete_all_lem :
    (l : List VersionStream) (rest : ℕ)
    → AllReady l
    → ready_size l + rest < u64_mod
    → delete_all (ready_size l + rest) l ≡ rest
unfolding delete_all
delete_all_lem [] rest k h = omega arith
delete_all_lem (s ∷ r) rest k h =
    ap (λ n. delete_stream n s)
      (ap (λ n. delete_all n r) (rw k.0 (omega arith))
        ∙ delete_all_lem r (get_data_size s + rest) k.1 (omega (arith, rw k.0 at h)))
    ∙ delete_stream_lem s rest (omega (arith, rw k.0 at h))

-- A loop ends with items that the size accounts for, beside `x`; the size has not grown from `n`.
pub record IsCounted (x n : ℕ) (l : List Item) (size : ℕ) : Type 0 where
  pub total : size ≡ total_size l + x
  pub ready : NoneArriving l
  pub less : size ≤ n

pub IsCounted-cons :
    (x n m size : ℕ) (j : Item) (l : List Item)
    → AllReady j.versions
    → m ≤ n
    → IsCounted (ready_size j.versions + x) m l size
    → IsCounted x n (j ∷ l) size
IsCounted-cons x n m size j l k h c = record {
  total = omega (arith, c.total);
  ready = (k, c.ready);
  less = omega (arith, c.less);
}

-- No version is arriving, and the size of the cache is that of its versions.
pub record IsSized (c : Cache) : Type 0 where
  pub total : c.size ≡ total_size c.items
  pub ready : NoneArriving c.items
  pub bound : c.size < u64_mod
