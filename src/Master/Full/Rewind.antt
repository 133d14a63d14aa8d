-- ===== src/Master/Full/Rewind.antt =====
-- co/fullMasterCM.cpp: _updateCommitCount when the incarnation decreases, which an assertion
-- rules out.
use mathlib.Core.List.{reverse, reverse-append, reverse-cons, reverse-reverse}
use collage.Prelude.{
  ℕ, ◌+◌, ◌≤◌, ◌<◌, ◌≡◌, refl, ap, ◌∙◌, false, some, List, [], ◌∷◌, ◌++◌, arith, ltb, leb, u64_mod,
}
use collage.Master.State.{Master, InstanceData}
use collage.Master.Full.{drop_future, update_commit_count, commit_data}
use collage.Master.Full.Invariant.{EndsAt, IsConsistent}

drop_future_stop :
    (i : ℕ) (e : InstanceData) (r : List InstanceData)
    → e.commit_count ≤ i
    → drop_future i (e ∷ r) ≡ e ∷ r
unfolding drop_future
drop_future_stop i e [] h = refl
drop_future_stop i e (f ∷ r) h = ground arith

pub EndsAt-last :
    (v : ℕ) (l : List InstanceData) (d : InstanceData) → EndsAt v (l ++ d ∷ []) → d.version ≡ v
EndsAt-last v [] d h = h
EndsAt-last v (x ∷ []) d h = h.1
EndsAt-last v (x ∷ y ∷ l) d h = EndsAt-last v (y ∷ l) d h.1

EndsAt-before :
    (v : ℕ) (l : List InstanceData) (e d : InstanceData)
    → EndsAt v (l ++ e ∷ d ∷ [])
    → e.version + 1 ≡ v
EndsAt-before v [] e d h = omega arith
EndsAt-before v (x ∷ []) e d h = omega arith
EndsAt-before v (x ∷ y ∷ l) e d h = EndsAt-before v (y ∷ l) e d h.1

reverse_two :
    (l : List InstanceData) (e d : InstanceData) → reverse (l ++ e ∷ d ∷ []) ≡ d ∷ e ∷ reverse l
reverse_two l e d = reverse-append l (e ∷ d ∷ [])

rewind_lem :
    (m : Master) (older : List InstanceData) (e d : InstanceData) (i : ℕ)
    → m.datas ≡ older ++ e ∷ d ∷ []
    → i < m.commit_count
    → e.commit_count ≤ i
    → i < d.commit_count
    → update_commit_count m (some i) ≡ record m { commit_count = i; datas = older ++ e ∷ [] }
unfolding update_commit_count drop_future
rewind_lem m older e d i same h he hd =
    let lower : leb m.commit_count i ≡ false = ground arith in
    let future : leb d.commit_count i ≡ false = ground arith in
    let kept : ltb i e.commit_count ≡ false = ground arith in
    let back : reverse (e ∷ reverse older) ≡ older ++ e ∷ [] =
      reverse-cons e (reverse older) ∙ ap (λ l. l ++ e ∷ []) (reverse-reverse older) in
    rw (
      lower,
      same,
      reverse_two older e d,
      future,
      drop_future_stop i e (reverse older) he,
      kept,
      back,
    )

-- If the incarnation falls below the current count and that of the newest version, but not below
-- that of the one before it, a commit of a consistent master drops the newest version and keeps the
-- version number, which then names a version that is not there. What the object writes, if the
-- version number does not overflow, becomes a version two after the one that it follows, so that
-- there is a gap.
pub rewind_loses_head :
    (m : Master) (older : List InstanceData) (e d : InstanceData) (i b : ℕ) (payload : List ℕ)
    → IsConsistent m
    → m.datas ≡ older ++ e ∷ d ∷ []
    → i < m.commit_count
    → e.commit_count ≤ i
    → i < d.commit_count
    → m.version + 1 < u64_mod
    → ((update_commit_count m (some i)).version ≡ m.version)
      × ((update_commit_count m (some i)).datas ≡ older ++ e ∷ [])
      × (e.version + 1 ≡ m.version)
      × (¬ IsConsistent (update_commit_count m (some i)))
      × ((new : InstanceData) × ((commit_data (update_commit_count m (some i)) (b ∷ payload)).datas
            ≡ (older ++ e ∷ []) ++ new ∷ [])
          × (new.version ≡ e.version + 2))
unfolding commit_data
rewind_loses_head m older e d i b payload v same h he hd room =
    rw (rewind_lem m older e d i same h he hd) (
      refl,
      refl,
      before,
      λ bad. absurd (omega (arith, before, EndsAt-last m.version older e bad.ends)),
      (_, refl, omega (arith, before)),
    )
  where
    before : e.version + 1 ≡ m.version
    before = EndsAt-before m.version older e d (rw same at v.ends)
