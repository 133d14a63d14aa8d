-- ===== src/Cache/Evict/Rounds.antt =====
-- co/instanceCache.cpp: one step of the loops of _releaseItems.
use collage.Prelude.{
  ℕ, zero, suc, ◌≤◌, ◌<◌, ◌≡◌, refl, inl, inr, Bool, true, false, ◌&&◌, ◌||◌, List, [], ◌∷◌, arith,
  ltb, Bool-cases, length, contains,
}
use collage.Slave.Versions.{VersionStream}
use collage.Cache.Items.{Item, has_streams, release_first_size, release_first}
use collage.Cache.Evict.{may_release, Progress, release_round, release_keys, release_more}

-- An item that the second loop has still to empty.
abbrev pub has_work : ℕ → List ℕ → Item → Bool
has_work min_usage keys i = contains keys i.id && (has_streams i && may_release min_usage i)

-- The release of a stream changes nothing that decides whether the item may go.
pub record IsShorter (min_usage : ℕ) (i j : Item) : Type 0 where
  pub id : j.id ≡ i.id
  pub may : may_release min_usage j ≡ may_release min_usage i
  pub streams : length j.versions ≤ length i.versions
  pub fewer : has_streams i ≡ true → length j.versions < length i.versions

IsShorter-release_first :
    (min_usage : ℕ) (i : Item) (vs : List VersionStream)
    → IsShorter min_usage (record i { versions = vs }) (release_first (record i { versions = vs }))
unfolding release_first may_release
IsShorter-release_first min_usage i [] = record {
  id = refl;
  may = refl;
  streams = omega arith;
  fewer = λ h. absurd (ground arith);
}
IsShorter-release_first min_usage i (s ∷ r) = record {
  id = refl;
  may = refl;
  streams = omega arith;
  fewer = λ _. omega arith;
}

pub release_first-IsShorter : (min_usage : ℕ) (i : Item) → IsShorter min_usage i (release_first i)
release_first-IsShorter min_usage i = IsShorter-release_first min_usage i i.versions

-- The two ways in which a loop treats an item.
pub round_goes :
    (t u size : ℕ) (i : Item) (r : List Item)
    → (ltb t size && may_release u i) ≡ true
    → release_round t u size (i ∷ r)
      ≡ let rest = release_round t u (release_first_size size i) r in
        record {
          items = release_first i ∷ rest.items;
          size = rest.size;
          keys = i.id ∷ rest.keys;
          streams_left = has_streams (release_first i) || rest.streams_left;
        }
unfolding release_round
round_goes t u size i r h = rw h

pub round_stays :
    (t u size : ℕ) (i : Item) (r : List Item)
    → (ltb t size && may_release u i) ≡ false
    → release_round t u size (i ∷ r)
      ≡ let rest = release_round t u size r in record rest { items = i ∷ rest.items }
unfolding release_round
round_stays t u size i r h = rw h

pub keys_goes :
    (t u : ℕ) (ks : List ℕ) (size : ℕ) (i : Item) (r : List Item)
    → (ltb t size && has_work u ks i) ≡ true
    → release_keys t u ks size (i ∷ r)
      ≡ let rest = release_keys t u ks (release_first_size size i) r in
        record rest {
          items = release_first i ∷ rest.items;
          streams_left = has_streams (release_first i) || rest.streams_left;
        }
unfolding release_keys
keys_goes t u ks size i r h = rw h

pub keys_stays :
    (t u : ℕ) (ks : List ℕ) (size : ℕ) (i : Item) (r : List Item)
    → (ltb t size && has_work u ks i) ≡ false
    → release_keys t u ks size (i ∷ r)
      ≡ let rest = release_keys t u ks size r in record rest { items = i ∷ rest.items }
unfolding release_keys
keys_stays t u ks size i r h = rw h

pub keys-release_keys :
    (t u : ℕ) (ks : List ℕ) (size : ℕ) (l : List Item) → (release_keys t u ks size l).keys ≡ ks
unfolding release_keys
keys-release_keys t u ks size [] = refl
keys-release_keys t u ks size (i ∷ r) = elim (Bool-cases (ltb t size && has_work u ks i)) [
  | inl g ↦
      rw (keys_goes t u ks size i r g) (keys-release_keys t u ks (release_first_size size i) r)
  | inr g ↦ rw (keys_stays t u ks size i r g) (keys-release_keys t u ks size r)
]

module _ (t u : ℕ) where
  pub more_stops :
      (fuel : ℕ) (p : Progress)
      → (p.streams_left && ltb t p.size) ≡ false
      → release_more fuel t u p ≡ p
  unfolding release_more
  more_stops zero p h = refl
  more_stops (suc fuel) p h = rw (h, release_more)

  pub more_runs :
      (fuel : ℕ) (p : Progress)
      → (p.streams_left && ltb t p.size) ≡ true
      → release_more (suc fuel) t u p
        ≡ release_more fuel t u (release_keys t u p.keys p.size p.items)
  unfolding release_more
  more_runs fuel p h = rw (h, release_more)
