-- ===== src/Master/Full/Commit.antt =====
-- co/fullMasterCM.cpp: what a commit publishes, with and without data.
use mathlib.Core.List.{get_last?}
use collage.Prelude.{
  ℕ, ◌+◌, ◌%◌, ◌≤◌, ◌<◌, ◌≡◌, refl, sym, ◌∙◌, ◌≢◌, ◌⊎◌, inl, inr, true, Option, none, some, List,
  [], ◌∷◌, ◌++◌, arith, leb, u32_mod, u64_mod,
}
use collage.Master.State.{Master, InstanceData, Message, instance_commit}
use collage.Master.Full.{succ128, obsolete, update_commit_count, commit_data, commit, send_commit}
use collage.Master.Full.Invariant.{Advances, commit-cases}
use collage.Master.Full.Obsolete.{get_last?-obsolete_datas}

get_last?-snoc {ℓ} : {A : Type ℓ} (xs : List A) (x : A) → get_last? (xs ++ x ∷ []) ≡ some x
get_last?-snoc [] x = refl
get_last?-snoc (y ∷ []) x = refl
get_last?-snoc (y ∷ z ∷ xs) x = get_last?-snoc (z ∷ xs) x

-- The count that a commit stamps its version with.
abbrev pub next_count : Master → Option ℕ → ℕ
next_count m none = (m.commit_count + 1) % u32_mod
next_count m (some incarnation) = incarnation

pub update_commit_count_fields :
    (m : Master) (incarnation : Option ℕ)
    → Advances m incarnation
    → update_commit_count m incarnation ≡ record m { commit_count = next_count m incarnation }
unfolding update_commit_count
update_commit_count_fields m none a = refl
update_commit_count_fields m (some i) a = let e : leb m.commit_count i ≡ true = ground arith in rw e

-- The version that a commit makes of what the object wrote.
abbrev pub committed : Master → Option ℕ → List ℕ → InstanceData
committed m incarnation payload = record {
  version = m.version + 1;
  payload = payload;
  commit_count = next_count m incarnation;
}

newest_committed :
    (m : Master) (incarnation : Option ℕ) (b : ℕ) (payload : List ℕ)
    → Advances m incarnation
    → m.version + 1 < u64_mod
    → let next = obsolete (commit_data (update_commit_count m incarnation) (b ∷ payload)) in
      (next.version ≡ m.version + 1)
      × (get_last? next.datas ≡ some (committed m incarnation (b ∷ payload)))
unfolding obsolete commit_data
newest_committed m incarnation b payload a h =
    let e : succ128 m.version ≡ m.version + 1 = omega arith in
    rw (update_commit_count_fields m incarnation a, e)
      (
        refl,
        get_last?-obsolete_datas _ _ (m.datas ++ committed m incarnation (b ∷ payload) ∷ [])
            ∙ get_last?-snoc m.datas _,
      )

sent_committed :
    (m : Master) (incarnation : Option ℕ) (b : ℕ) (payload : List ℕ)
    → Advances m incarnation
    → m.version + 1 < u64_mod
    → let sent = send_commit (update_commit_count m incarnation) (b ∷ payload) in
      ((m.slaves ≡ []) × (sent ≡ []))
      ⊎ ((m.slaves ≢ []) × (sent ≡ instance_commit m.slaves (m.version + 1) (b ∷ payload) ∷ []))
unfolding send_commit
sent_committed m incarnation b payload a h =
    let e : succ128 m.version ≡ m.version + 1 = omega arith in
    rw (update_commit_count_fields m incarnation a) (ground arith)

-- A dirty commit of an object that writes something makes the next version the newest one, with
-- what was written and the new count, within the limit on versions; it sends just that to the
-- slaves if there are any, and nothing if there are none. The commit must return, the incarnation
-- must not decrease, and the version must not overflow.
pub commit_publishes :
    (m next : Master) (incarnation : Option ℕ) (b : ℕ) (payload : List ℕ) (v : ℕ)
    (sent : List Message)
    → Advances m incarnation
    → m.version + 1 < u64_mod
    → commit m incarnation true (b ∷ payload) ≡ some (next, v, sent)
    → (v ≡ m.version + 1)
      × (next.version ≡ v)
      × (v ≤ m.max_version)
      × (get_last? next.datas ≡ some (committed m incarnation (b ∷ payload)))
      × (((m.slaves ≡ []) × (sent ≡ []))
          ⊎ ((m.slaves ≢ [])
              × (sent ≡ instance_commit m.slaves (m.version + 1) (b ∷ payload) ∷ [])))
commit_publishes m next incarnation b payload v sent a h e =
    elim (commit-cases m next incarnation true (b ∷ payload) v sent e) [
      | inl (no_change, _, _, _) ↦ absurd (ground arith)
      | inr (_, same, head, out, limit) ↦
          let (version, newest) = newest_committed m incarnation b payload a h in
          let now : next.version ≡ m.version + 1 = rw same version in
          (
            omega arith,
            sym head,
            omega arith,
            rw same newest,
            rw out (sent_committed m incarnation b payload a h),
          )
    ]

-- A dirty commit of an object that writes nothing keeps the version and the newest data, and sends
-- nothing.
pub commit_nothing :
    (m next : Master) (incarnation : Option ℕ) (v : ℕ) (sent : List Message)
    → Advances m incarnation
    → commit m incarnation true [] ≡ some (next, v, sent)
    → (v ≡ m.version) × (get_last? next.datas ≡ get_last? m.datas) × (sent ≡ [])
unfolding commit_data send_commit obsolete
commit_nothing m next incarnation v sent a e =
    elim (commit-cases m next incarnation true [] v sent e) [
      | inl (no_change, _, _, _) ↦ absurd (ground arith)
      | inr (_, same, head, out, limit) ↦
          let u : update_commit_count m incarnation
              ≡ record m { commit_count = next_count m incarnation } =
            update_commit_count_fields m incarnation a in
          (rw (head, same, u), rw (same, u) (get_last?-obsolete_datas _ _ m.datas), out)
    ]
