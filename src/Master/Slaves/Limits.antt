-- ===== src/Master/Slaves/Limits.antt =====
-- co/versionedMasterCM.cpp: the commit limit and the limits of the slaves.
use collage.Prelude.{
  ℕ, ◌+◌, ◌≤◌, ◌<◌, ◌≡◌, ◌⊎◌, true, Option, some, List, [], ◌∷◌, arith, All, u64_mod, u64_max,
}
use collage.Master.State.{Master, SlaveData, Message}
use collage.Master.Slaves.{lowest_limit, lower_limit}
use collage.Master.Slaves.Subscribed.{IsSubscribed}
use collage.Master.Full.{commit}
use collage.Master.Full.Invariant.{Advances}
use collage.Master.Full.Commit.{commit_publishes}

-- A slave without a limit has the largest number.
abbrev pub Allows : ℕ → SlaveData → Type 0
Allows v s = (s.max_version ≡ u64_max) ⊎ (v ≤ s.max_version)

lowest_limit-le : (limit : ℕ) (l : List SlaveData) → lowest_limit limit l ≤ limit
unfolding lowest_limit
lowest_limit-le limit [] = omega arith
lowest_limit-le limit (s ∷ r) = ground (arith, lowest_limit-le (lower_limit limit s) r)

lowest_limit-Allows :
    (v limit : ℕ) (l : List SlaveData) → v ≤ lowest_limit limit l → All (Allows v) l
unfolding lowest_limit
lowest_limit-Allows v limit [] h = tt
lowest_limit-Allows v limit (s ∷ r) h = (
  ground (arith, lowest_limit-le (lower_limit limit s) r),
  lowest_limit-Allows v (lower_limit limit s) r h,
)

-- A version that a commit publishes is within the limit of every subscribed slave that has one.
pub commit_allowed :
    (m next : Master) (incarnation : Option ℕ) (b : ℕ) (payload : List ℕ) (v : ℕ)
    (sent : List Message)
    → IsSubscribed m
    → Advances m incarnation
    → m.version + 1 < u64_mod
    → commit m incarnation true (b ∷ payload) ≡ some (next, v, sent)
    → All (Allows v) m.slave_data
commit_allowed m next incarnation b payload v sent k a h e =
    let (_, _, within, _, _) = commit_publishes m next incarnation b payload v sent a h e in
    lowest_limit-Allows v u64_max m.slave_data (rw (← k.limited) within)
