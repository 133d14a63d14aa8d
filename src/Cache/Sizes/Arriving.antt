-- ===== src/Cache/Sizes/Arriving.antt =====
-- co/instanceCache.cpp: an eviction and a version that is still arriving, which an assertion
-- rules out.
use collage.Prelude.{
  ℕ, ◌+◌, ◌≤◌, ◌<◌, ◌≡◌, refl, sym, ap, ◌∙◌, inl, inr, true, false, not, ◌&&◌, ◌||◌, List, [], ◌∷◌,
  arith, ltb, leb, if◌then◌else◌, Bool-cases, length, contains, All, u64_mod,
}
use collage.Slave.Versions.{VersionStream, is_ready, get_data_size}
use collage.Cache.Items.{Item, Cache, has_streams, delete_stream, release_first_size, release_first}
use collage.Cache.Evict.{
  may_release, Progress, release_round, release_progress, drop_empty, release_items,
}
use collage.Cache.Evict.Rounds.{round_goes, round_stays, more_stops}
use collage.Cache.Sizes.{no_streams-ready_size, ready_size, total_size}

release_arriving :
    (size : ℕ) (i : Item) (s : VersionStream)
    → i.versions ≡ s ∷ []
    → get_data_size s ≤ size
    → size < u64_mod
    → (release_first_size size i + get_data_size s ≡ size) × ((release_first i).versions ≡ [])
unfolding release_first_size release_first delete_stream
release_arriving size i s e le lt = rw e (omega arith, refl)

abbrev untouched : ℕ → List Item → Progress
untouched size l = record { items = l; size = size; keys = []; streams_left = false }

round_none :
    (t u size : ℕ) (l : List Item)
    → All (λ i. may_release u i ≡ false) l
    → release_round t u size l ≡ untouched size l
unfolding release_round
round_none t u size [] h = refl
round_none t u size (i ∷ r) h =
    round_stays t u size i r (ground (arith, h.0))
    ∙ ap (λ (p : Progress). record p { items = i ∷ p.items }) (round_none t u size r h.1)

total_size-drop_empty : (ks : List ℕ) (l : List Item) → total_size (drop_empty ks l) ≡ total_size l
unfolding drop_empty
total_size-drop_empty ks [] = refl
total_size-drop_empty ks (i ∷ r) =
    let same = total_size-drop_empty ks r in
    elim (Bool-cases (not (contains ks i.id && not (has_streams i)))) [
      | inl stays ↦ rw stays (omega (arith, same))
      | inr goes ↦ rw goes (omega (arith, same, no_streams-ready_size i.versions (ground arith)))
    ]

-- What the loops make of an item whose only version is arriving, before items that may not go.
abbrev emptied : ℕ → Item → List Item → Progress
emptied size i r = record {
  items = release_first i ∷ r;
  size = release_first_size size i;
  keys = i.id ∷ [];
  streams_left = false;
}

abbrev before_first : ℕ → Item → Progress → Progress
before_first size i p = record {
  items = release_first i ∷ p.items;
  size = p.size;
  keys = i.id ∷ p.keys;
  streams_left = has_streams (release_first i) || p.streams_left;
}

module _ (target : ℕ → ℕ) where
  progress_arriving :
      (u : ℕ) (c : Cache) (i : Item) (s : VersionStream) (r : List Item)
      → c.items ≡ i ∷ r
      → i.versions ≡ s ∷ []
      → may_release u i ≡ true
      → All (λ j. may_release u j ≡ false) r
      → target c.max_size < c.size
      → (release_first i).versions ≡ []
      → release_progress target u c ≡ emptied c.size i r
  unfolding release_progress
  progress_arriving u c i s r items one may others over gone =
      let t = target c.max_size in
      let first : release_round t u c.size c.items ≡ emptied c.size i r =
        ap (release_round t u c.size) items
        ∙ round_goes t u c.size i r (ground (arith, may))
        ∙ ap (before_first c.size i) (round_none t u (release_first_size c.size i) r others)
        ∙ ap (λ b. record (emptied c.size i r) { streams_left = b || false })
            (ap (λ (vs : List VersionStream). ltb 0 (length vs)) gone) in
      rw first (more_stops t u _ (emptied c.size i r) refl)

  -- A cache over its maximum counts what its complete versions hold. Of its items only the first
  -- may go, and its only version is still arriving, with no more bytes than the size, which has 64
  -- bits; the target is not above the maximum. The eviction takes the bytes of that version off the
  -- size, in which they have not been counted: what the complete versions hold stays the same, and
  -- the size is less than that by them.
  pub release_items_arriving :
      (u : ℕ) (c : Cache) (i : Item) (s : VersionStream) (r : List Item)
      → c.items ≡ i ∷ r
      → i.versions ≡ s ∷ []
      → is_ready s ≡ false
      → may_release u i ≡ true
      → All (λ j. may_release u j ≡ false) r
      → target c.max_size ≤ c.max_size
      → c.max_size < c.size
      → c.size ≡ total_size c.items
      → get_data_size s ≤ c.size
      → c.size < u64_mod
      → (total_size (release_items target u c).items ≡ total_size c.items)
        × ((release_items target u c).size + get_data_size s
            ≡ total_size (release_items target u c).items)
  unfolding release_items
  release_items_arriving u c i s r items one arriving may others le over count fits lt =
      let (fell, gone) = release_arriving c.size i s one fits lt in
      let run = progress_arriving u c i s r items one may others (omega (arith, le, over)) gone in
      let large : leb c.size c.max_size ≡ false = ground (arith, over) in
      let no_ready : ready_size i.versions ≡ ready_size [] =
        ap ready_size one ∙ ap (λ b. (if b then get_data_size s else 0) + 0) arriving in
      let same : total_size (drop_empty (i.id ∷ []) (release_first i ∷ r)) ≡ total_size c.items =
        total_size-drop_empty (i.id ∷ []) (release_first i ∷ r)
        ∙ ap (λ n. n + total_size r) (ap ready_size gone ∙ sym no_ready)
        ∙ sym (ap total_size items) in
      rw (large, run) (same, fell ∙ count ∙ sym same)
