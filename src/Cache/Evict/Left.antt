-- ===== src/Cache/Evict/Left.antt =====
-- co/instanceCache.cpp: what a round of the loops of _releaseItems leaves to release.
use collage.Prelude.{
  ℕ, ◌≤◌, ◌<◌, ◌≡◌, refl, sym, ap, ◌∙◌, inl, inr, Bool, true, false, ◌&&◌, ◌||◌, List, [], ◌∷◌,
  arith, ltb, leb, leb→le, Bool-cases, contains, All,
}
use collage.Cache.Items.{Item, has_streams, release_first_size, release_first}
use collage.Cache.Evict.{may_release, release_round, release_keys, count_streams}
use collage.Cache.Evict.Rounds.{
  release_first-IsShorter, has_work, round_goes, round_stays, keys_goes, keys_stays,
}

abbrev pub is_pending : ℕ → Item → Bool
is_pending min_usage i = has_streams i && may_release min_usage i

abbrev pub any_pending : ℕ → List Item → Bool
any_pending min_usage [] = false
any_pending min_usage (i ∷ r) = is_pending min_usage i || any_pending min_usage r

-- The keys have every item that may go.
abbrev pub Keyed : ℕ → List ℕ → List Item → Type 0
Keyed min_usage keys l = All (λ i. may_release min_usage i ≡ true → contains keys i.id ≡ true) l

-- Once the cache is down to the target, a loop does nothing.
round_done : (t u size : ℕ) (l : List Item) → size ≤ t → (release_round t u size l).size ≤ t
unfolding release_round
round_done t u size [] h = h
round_done t u size (i ∷ r) h =
    rw (round_stays t u size i r (ground arith)) (round_done t u size r h)

keys_done :
    (t u : ℕ) (ks : List ℕ) (size : ℕ) (l : List Item)
    → size ≤ t
    → (release_keys t u ks size l).size ≤ t
unfolding release_keys
keys_done t u ks size [] h = h
keys_done t u ks size (i ∷ r) h =
    rw (keys_stays t u ks size i r (ground arith)) (keys_done t u ks size r h)

-- A round of the second loop never adds a stream, and removes one if any may go.
pub count-release_keys :
    (t u : ℕ) (ks : List ℕ) (size : ℕ) (l : List Item)
    → Keyed u ks l
    → let q = release_keys t u ks size l in
      (count_streams q.items ≤ count_streams l)
      × (t < size → any_pending u l ≡ true → count_streams q.items < count_streams l)
unfolding release_keys
count-release_keys t u ks size [] k = (omega arith, λ a b. absurd (ground arith))
count-release_keys t u ks size (i ∷ r) k = elim (Bool-cases (ltb t size && has_work u ks i)) [
  | inl g ↦
      let c = count-release_keys t u ks (release_first_size size i) r k.1 in
      let s = release_first-IsShorter u i in
      let has : has_streams i ≡ true = ground arith in
      let fewer = s.fewer has in
      rw (keys_goes t u ks size i r g) (omega (arith, c.0, fewer), λ _ _. omega (arith, c.0, fewer))
  | inr g ↦
      let c = count-release_keys t u ks size r k.1 in
      rw (keys_stays t u ks size i r g) (
        omega (arith, c.0),
        λ over work. let less = c.1 over (ground (arith, k.0)) in omega (arith, less),
      )
]

pub Keyed-release_keys :
    (t u : ℕ) (ks : List ℕ) (size : ℕ) (l : List Item)
    → Keyed u ks l
    → Keyed u ks (release_keys t u ks size l).items
unfolding release_keys
Keyed-release_keys t u ks size [] k = k
Keyed-release_keys t u ks size (i ∷ r) k = elim (Bool-cases (ltb t size && has_work u ks i)) [
  | inl g ↦
      let s = release_first-IsShorter u i in
      rw (keys_goes t u ks size i r g) (
        λ h. ap (contains ks) s.id ∙ k.0 (sym s.may ∙ h),
        Keyed-release_keys t u ks (release_first_size size i) r k.1,
      )
  | inr g ↦ rw (keys_stays t u ks size i r g) (k.0, Keyed-release_keys t u ks size r k.1)
]

-- A round that does not reach the target says whether a stream is left that may go.
pub left-release_keys :
    (t u : ℕ) (ks : List ℕ) (size : ℕ) (l : List Item)
    → Keyed u ks l
    → let q = release_keys t u ks size l in t < q.size → q.streams_left ≡ any_pending u q.items
unfolding release_keys
left-release_keys t u ks size [] k = λ _. refl
left-release_keys t u ks size (i ∷ r) k = elim (Bool-cases (ltb t size && has_work u ks i)) [
  | inl g ↦
      let s = release_first-IsShorter u i in
      let rest = left-release_keys t u ks (release_first_size size i) r k.1 in
      let may : may_release u (release_first i) ≡ true = s.may ∙ ground arith in
      rw (keys_goes t u ks size i r g) (λ over. rw (rest over, may) (ground arith))
  | inr g ↦
      let rest = left-release_keys t u ks size r k.1 in
      rw (keys_stays t u ks size i r g) (λ over. elim (Bool-cases (leb size t)) [
        | inl done ↦ absurd (omega (arith, keys_done t u ks size r (leb→le _ _ done)))
        | inr more ↦ rw (rest over) (ground (arith, k.0))
      ])
]

pub left-release_round :
    (t u size : ℕ) (l : List Item)
    → let q = release_round t u size l in t < q.size → q.streams_left ≡ any_pending u q.items
unfolding release_round
left-release_round t u size [] = λ _. refl
left-release_round t u size (i ∷ r) = elim (Bool-cases (ltb t size && may_release u i)) [
  | inl g ↦
      let s = release_first-IsShorter u i in
      let rest = left-release_round t u (release_first_size size i) r in
      let may : may_release u (release_first i) ≡ true = s.may ∙ ground arith in
      rw (round_goes t u size i r g) (λ over. rw (rest over, may) (ground arith))
  | inr g ↦
      let rest = left-release_round t u size r in
      rw (round_stays t u size i r g) (λ over. elim (Bool-cases (leb size t)) [
        | inl done ↦ absurd (omega (arith, round_done t u size r (leb→le _ _ done)))
        | inr more ↦ rw (rest over) (ground arith)
      ])
]

pub Keyed-release_round :
    (t u size : ℕ) (l : List Item) (ks : List ℕ)
    → let q = release_round t u size l in
      t < q.size → ((n : ℕ) → contains q.keys n ≡ true → contains ks n ≡ true) → Keyed u ks q.items
unfolding release_round
Keyed-release_round t u size [] ks = λ _ _. tt
Keyed-release_round t u size (i ∷ r) ks = elim (Bool-cases (ltb t size && may_release u i)) [
  | inl g ↦
      let s = release_first-IsShorter u i in
      let rest = Keyed-release_round t u (release_first_size size i) r ks in
      rw (round_goes t u size i r g) (λ over sub. (
        λ _. sub (release_first i).id (rw s.id (ground arith)),
        rest over (λ n h. sub n (ground (arith, h))),
      ))
  | inr g ↦
      let rest = Keyed-release_round t u size r ks in
      rw (round_stays t u size i r g) (λ over sub. elim (Bool-cases (leb size t)) [
        | inl done ↦ absurd (omega (arith, round_done t u size r (leb→le _ _ done)))
        | inr more ↦ (λ h. absurd (ground arith), rest over sub)
      ])
]
