-- ===== src/Master/Mapping/Coverage.antt =====
-- co/fullMasterCM.cpp: the versions that a slave needs, in its cache or sent to it by
-- _initSlave.
use collage.Prelude.{
  ℕ, ◌+◌, ◌≤◌, ◌<◌, ◌≡◌, refl, ◌∙◌, ◌⊎◌, inl, inr, Bool, true, false, ◌||◌, List, [], ◌∷◌, arith,
  ltb, leb, ◌==◌, Bool-cases, u128_mod,
}
use collage.Master.State.{Master, InstanceData, MapCommand}
use collage.Master.Full.Invariant.{EndsAt, IsConsistent}
use collage.Master.Mapping.{oldest, first_version, send_range, skip_below, take_until, sent_datas}

abbrev pub has_version : ℕ → List InstanceData → Bool
has_version w [] = false
has_version w (d ∷ r) = (d.version == w) || has_version w r

EndsAt-has_version :
    (v w : ℕ) (d : InstanceData) (r : List InstanceData)
    → EndsAt v (d ∷ r)
    → d.version ≤ w
    → w ≤ v
    → has_version w (d ∷ r) ≡ true
EndsAt-has_version v w d [] h p q = ground arith
EndsAt-has_version v w d (e ∷ r) h p q = elim (Bool-cases (d.version == w)) [
  | inl t ↦ rw t
  | inr t ↦ rw t (EndsAt-has_version v w e r h.1 (ground arith) q)
]

EndsAt-below :
    (v w : ℕ) (d : InstanceData) (r : List InstanceData)
    → EndsAt v (d ∷ r)
    → w < d.version
    → has_version w (d ∷ r) ≡ false
EndsAt-below v w d [] h p = ground arith
EndsAt-below v w d (e ∷ r) h p = ground (arith, EndsAt-below v w e r h.1 (omega arith))

skip_below-has :
    (s w : ℕ) (l : List InstanceData) → s ≤ w → has_version w (skip_below s l) ≡ has_version w l
unfolding skip_below
skip_below-has s w [] h = refl
skip_below-has s w (d ∷ r) h = ground (arith, skip_below-has s w r h)

skip_below-EndsAt :
    (v s : ℕ) (l : List InstanceData) → EndsAt v l → s ≤ v → EndsAt v (skip_below s l)
unfolding skip_below
skip_below-EndsAt v s [] h p = h
skip_below-EndsAt v s (d ∷ []) h p = let e : ltb d.version s ≡ false = ground arith in rw e h
skip_below-EndsAt v s (d ∷ e ∷ r) h p = elim (Bool-cases (ltb d.version s)) [
  | inl t ↦ rw t (skip_below-EndsAt v s (e ∷ r) h.1 p)
  | inr t ↦ rw t h
]

take_until-has :
    (v e w : ℕ) (l : List InstanceData)
    → EndsAt v l
    → w ≤ e
    → has_version w l ≡ true
    → has_version w (take_until e l) ≡ true
unfolding take_until
take_until-has v e w [] h p q = cc
take_until-has v e w (d ∷ []) h p q = ground arith
take_until-has v e w (d ∷ f ∷ r) h p q = elim (Bool-cases (leb d.version e)) [
  | inl t ↦ rw t (ground (arith, take_until-has v e w (f ∷ r) h.1 p))
  | inr t ↦ rw t (ground (arith, EndsAt-below v w d (f ∷ r) h))
]

range-has :
    (v s e w : ℕ) (l : List InstanceData)
    → EndsAt v l
    → s ≤ w
    → w ≤ e
    → w ≤ v
    → has_version w l ≡ true
    → has_version w (take_until e (skip_below s l)) ≡ true
range-has v s e w l h p q k z =
    take_until-has v e w (skip_below s l) (skip_below-EndsAt v s l h (omega arith)) q
      (skip_below-has s w l p ∙ z)

retained-has :
    (v w : ℕ) (m : Master) (l : List InstanceData)
    → m.datas ≡ l
    → EndsAt v l
    → oldest m ≤ w
    → w ≤ v
    → has_version w l ≡ true
unfolding oldest
retained-has v w m [] same h p q = absurd h
retained-has v w m (d ∷ r) same h p q = EndsAt-has_version v w d r h (ground arith) q

oldest-le-first_version : (m : Master) (c : MapCommand) → oldest m ≤ first_version m c
unfolding first_version
oldest-le-first_version m c = ground arith

send_range-covers :
    (m : Master) (c : MapCommand) (use_cache : Bool) (w : ℕ)
    → c.min_cached_version < u128_mod
    → c.max_cached_version + 1 < u128_mod
    → first_version m c ≤ w
    → w ≤ m.version
    → ((use_cache ≡ true) × (c.min_cached_version ≤ w) × (w ≤ c.max_cached_version))
      ⊎ (((send_range m c use_cache).start ≤ w) × (w ≤ (send_range m c use_cache).end))
unfolding send_range
send_range-covers m c use_cache w p q lo hi = ground arith

-- Every version from the one that the reply names up to the current one is in the cached range of
-- the command, if the reply is to use the cache, or is sent.
pub sent_datas_cover :
    (m : Master) (c : MapCommand) (use_cache : Bool) (w : ℕ)
    → IsConsistent m
    → c.min_cached_version < u128_mod
    → c.max_cached_version + 1 < u128_mod
    → first_version m c ≤ w
    → w ≤ m.version
    → ((use_cache ≡ true) × (c.min_cached_version ≤ w) × (w ≤ c.max_cached_version))
      ⊎ (has_version w (sent_datas m c use_cache) ≡ true)
unfolding sent_datas
sent_datas_cover m c use_cache w v p q lo hi = elim (send_range-covers m c use_cache w p q lo hi) [
  | inl cached ↦ inl cached
  | inr (from, upto) ↦ inr (
      range-has m.version _ _ w m.datas v.ends from upto hi (
        retained-has m.version w m m.datas refl v.ends (omega (arith, oldest-le-first_version m c))
          hi))
]
