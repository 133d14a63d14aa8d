-- ===== src/Master/Full/Invariant.antt =====
-- co/fullMasterCM.cpp: the invariant that _checkConsistency asserts.
use collage.Prelude.{
  ℕ, ◌+◌, ◌-◌, ◌%◌, ◌≤◌, ◌<◌, ◌≡◌, refl, ◌⊎◌, inl, inr, Bool, true, false, ◌&&◌, Option, none, some,
  List, [], ◌∷◌, ◌++◌, arith, ltb, leb, leb→le, Bool-cases, u32_mod, u64_mod, u128_mod, low,
}
use collage.Master.State.{Master, InstanceData, Message}
use collage.Master.Full.{
  succ128, obsolete_datas, obsolete, update_commit_count, commit_data, commit, send_commit,
}

-- The retained versions are consecutive, and the newest of them is the given one.
abbrev pub EndsAt : ℕ → List InstanceData → Type 0
EndsAt v [] = ⊥
EndsAt v (d ∷ []) = d.version ≡ v
EndsAt v (d ∷ e ∷ r) = (d.version + 1 ≡ e.version) × EndsAt v (e ∷ r)

-- The commit counts do not decrease, and are at most the given one.
abbrev pub Counted : ℕ → List InstanceData → Type 0
Counted c [] = Unit
Counted c (d ∷ []) = d.commit_count ≤ c
Counted c (d ∷ e ∷ r) = (d.commit_count ≤ e.commit_count) × Counted c (e ∷ r)

pub record IsConsistent (m : Master) : Type 0 where
  pub ends : EndsAt m.version m.datas
  pub counted : Counted m.commit_count m.datas

-- What a caller of commit may pass: the next count, or one that is not lower.
abbrev pub Advances : Master → Option ℕ → Type 0
Advances m none = m.commit_count + 1 < u32_mod
Advances m (some incarnation) = m.commit_count ≤ incarnation

EndsAt-obsolete : (v c n : ℕ) (l : List InstanceData) → EndsAt v l → EndsAt v (obsolete_datas c n l)
unfolding obsolete_datas
EndsAt-obsolete v c n [] h = h
EndsAt-obsolete v c n (d ∷ []) h = h
EndsAt-obsolete v c n (d ∷ e ∷ r) h = elim (Bool-cases (ltb n c && ltb d.commit_count (c - n))) [
  | inl old ↦ rw old (EndsAt-obsolete v c n (e ∷ r) h.1)
  | inr new ↦ rw new h
]

Counted-obsolete :
    (b c n : ℕ) (l : List InstanceData) → Counted b l → Counted b (obsolete_datas c n l)
unfolding obsolete_datas
Counted-obsolete b c n [] h = h
Counted-obsolete b c n (d ∷ []) h = h
Counted-obsolete b c n (d ∷ e ∷ r) h = elim (Bool-cases (ltb n c && ltb d.commit_count (c - n))) [
  | inl old ↦ rw old (Counted-obsolete b c n (e ∷ r) h.1)
  | inr new ↦ rw new h
]

Counted-raise : (b c : ℕ) (l : List InstanceData) → b ≤ c → Counted b l → Counted c l
Counted-raise b c [] h k = tt
Counted-raise b c (d ∷ []) h k = omega arith
Counted-raise b c (d ∷ e ∷ r) h k = (k.0, Counted-raise b c (e ∷ r) h k.1)

EndsAt-snoc :
    (v : ℕ) (d : InstanceData) (l : List InstanceData)
    → d.version ≡ v + 1
    → EndsAt v l
    → EndsAt (v + 1) (l ++ d ∷ [])
EndsAt-snoc v d [] e h = absurd h
EndsAt-snoc v d (x ∷ []) e h = (omega arith, e)
EndsAt-snoc v d (x ∷ y ∷ r) e h = (h.0, EndsAt-snoc v d (y ∷ r) e h.1)

Counted-snoc :
    (c : ℕ) (d : InstanceData) (l : List InstanceData)
    → d.commit_count ≡ c
    → Counted c l
    → Counted c (l ++ d ∷ [])
Counted-snoc c d [] e h = omega arith
Counted-snoc c d (x ∷ []) e h = (omega arith, omega arith)
Counted-snoc c d (x ∷ y ∷ r) e h = (h.0, Counted-snoc c d (y ∷ r) e h.1)

pub obsolete-IsConsistent : (m : Master) → IsConsistent m → IsConsistent (obsolete m)
unfolding obsolete
obsolete-IsConsistent m v = record {
  ends = EndsAt-obsolete m.version m.commit_count m.n_versions m.datas v.ends;
  counted = Counted-obsolete m.commit_count m.commit_count m.n_versions m.datas v.counted;
}

pub update_commit_count-IsConsistent :
    (m : Master) (incarnation : Option ℕ)
    → Advances m incarnation
    → IsConsistent m
    → IsConsistent (update_commit_count m incarnation)
unfolding update_commit_count
update_commit_count-IsConsistent m none a v = record {
  ends = v.ends;
  counted =
      Counted-raise m.commit_count ((m.commit_count + 1) % u32_mod) m.datas (omega arith) v.counted;
}
update_commit_count-IsConsistent m (some i) a v =
    let e : leb m.commit_count i ≡ true = ground arith in
    rw e (record { ends = v.ends; counted = Counted-raise m.commit_count i m.datas a v.counted })

pub commit_data-IsConsistent :
    (m : Master) (payload : List ℕ)
    → m.version + 1 < u128_mod
    → IsConsistent m
    → IsConsistent (commit_data m payload)
unfolding commit_data
commit_data-IsConsistent m [] h v = record { ends = v.ends; counted = v.counted }
commit_data-IsConsistent m (b ∷ payload) h v =
    let e : succ128 m.version ≡ m.version + 1 = omega arith in
    rw e (record {
      ends = EndsAt-snoc m.version _ m.datas refl v.ends;
      counted = Counted-snoc m.commit_count _ m.datas refl v.counted;
    })

update_commit_count-version :
    (m : Master) (incarnation : Option ℕ)
    → Advances m incarnation
    → (update_commit_count m incarnation).version ≡ m.version
unfolding update_commit_count
update_commit_count-version m none a = refl
update_commit_count-version m (some i) a = ground arith

-- What a commit that does not wait returns, on both branches.
pub commit-cases :
    (m next : Master) (incarnation : Option ℕ) (dirty : Bool) (payload : List ℕ) (v : ℕ)
    (sent : List Message)
    → commit m incarnation dirty payload ≡ some (next, v, sent)
    → ((dirty ≡ false)
        × (next ≡ obsolete (update_commit_count m incarnation))
        × (v ≡ next.version)
        × (sent ≡ []))
      ⊎ ((dirty ≡ true)
          × (next ≡ obsolete (commit_data (update_commit_count m incarnation) payload))
          × (v ≡ next.version)
          × (sent ≡ send_commit (update_commit_count m incarnation) payload)
          × ((low m.version + 1) % u64_mod ≤ m.max_version))
unfolding commit
commit-cases m next incarnation false payload v sent e = inl (refl, cc, cc, cc)
commit-cases m next incarnation true payload v sent e =
    elim (Bool-cases (leb ((low m.version + 1) % u64_mod) m.max_version)) [
      | inl t ↦ inr (refl, ground arith, ground arith, ground arith, leb→le _ _ t)
      | inr t ↦ absurd (ground arith)
    ]

-- A commit with a count that does not decrease keeps the retained versions consecutive, the newest
-- of them the current version, and their counts in order.
pub commit-IsConsistent :
    (m next : Master) (incarnation : Option ℕ) (dirty : Bool) (payload : List ℕ) (v : ℕ)
    (sent : List Message)
    → IsConsistent m
    → Advances m incarnation
    → m.version + 1 < u128_mod
    → commit m incarnation dirty payload ≡ some (next, v, sent)
    → IsConsistent next
commit-IsConsistent m next incarnation dirty payload v sent c a h e =
    elim (commit-cases m next incarnation dirty payload v sent e) [
      | inl (_, same, _, _) ↦ rw same (obsolete-IsConsistent _ updated)
      | inr (_, same, _, _, _) ↦ rw same (
          obsolete-IsConsistent _ (
            commit_data-IsConsistent _ payload (rw (update_commit_count-version m incarnation a) h)
              updated))
    ]
  where
    updated : IsConsistent (update_commit_count m incarnation)
    updated = update_commit_count-IsConsistent m incarnation a c
