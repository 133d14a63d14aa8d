-- ===== src/Master/Full/Obsolete.antt =====
-- co/fullMasterCM.cpp: which versions _obsolete removes.
use mathlib.Core.List.{get_last?}
use collage.Prelude.{
  ℕ, ◌+◌, ◌-◌, ◌≤◌, ◌<◌, ◌≡◌, refl, ap, ◌⊎◌, inl, inr, ◌&&◌, List, [], ◌∷◌, ◌++◌, arith, ltb,
  Bool-cases, length, All,
}
use collage.Master.State.{InstanceData}
use collage.Master.Full.{obsolete_datas}
use collage.Master.Full.Invariant.{Counted}

abbrev pub IsOld : ℕ → ℕ → InstanceData → Type 0
IsOld c n d = d.commit_count + n < c

abbrev pub IsRecent : ℕ → ℕ → InstanceData → Type 0
IsRecent c n d = c ≤ d.commit_count + n

IsRecent-Counted :
    (b c n : ℕ) (d : InstanceData) (r : List InstanceData)
    → IsRecent c n d
    → Counted b (d ∷ r)
    → All (IsRecent c n) (d ∷ r)
IsRecent-Counted b c n d [] h k = (h, tt)
IsRecent-Counted b c n d (e ∷ r) h k = (h, IsRecent-Counted b c n e r (omega arith) k.1)

-- Obsoletion keeps the newest version.
pub get_last?-obsolete_datas :
    (c n : ℕ) (l : List InstanceData) → get_last? (obsolete_datas c n l) ≡ get_last? l
unfolding obsolete_datas
get_last?-obsolete_datas c n [] = refl
get_last?-obsolete_datas c n (d ∷ []) = refl
get_last?-obsolete_datas c n (d ∷ e ∷ r) =
    elim (Bool-cases (ltb n c && ltb d.commit_count (c - n))) [
      | inl t ↦ rw t (get_last?-obsolete_datas c n (e ∷ r))
      | inr t ↦ rw t
    ]

split_versions :
    (b c n : ℕ) (l : List InstanceData)
    → Counted b l
    → (removed : List InstanceData) × (l ≡ removed ++ obsolete_datas c n l)
      × All (IsOld c n) removed
      × ((length (obsolete_datas c n l) ≡ 1) ⊎ All (IsRecent c n) (obsolete_datas c n l))
unfolding obsolete_datas
split_versions b c n [] h = ([], refl, tt, inr tt)
split_versions b c n (d ∷ []) h = ([], refl, tt, inl (omega arith))
split_versions b c n (d ∷ e ∷ r) h =
    let (removed, same, old, rest) = split_versions b c n (e ∷ r) h.1 in
    elim (Bool-cases (ltb n c && ltb d.commit_count (c - n))) [
      | inl t ↦ rw t (d ∷ removed, ap (◌∷◌ d) same, (ground arith, old), rest)
      | inr t ↦ rw t ([], refl, tt, inr (IsRecent-Counted b c n d (e ∷ r) (ground arith) h))
    ]

-- Versions in the order of their counts leave from the old end, each of them older than the count of
-- versions to retain. The newest version stays in any case; what stays is all recent, or is this
-- version alone.
pub obsolete_datas-split :
    (b c n : ℕ) (l : List InstanceData)
    → Counted b l
    → (get_last? (obsolete_datas c n l) ≡ get_last? l)
      × ((removed : List InstanceData) × (l ≡ removed ++ obsolete_datas c n l)
          × All (IsOld c n) removed
          × ((length (obsolete_datas c n l) ≡ 1) ⊎ All (IsRecent c n) (obsolete_datas c n l)))
obsolete_datas-split b c n l h = (get_last?-obsolete_datas c n l, split_versions b c n l h)
