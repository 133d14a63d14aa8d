-- ===== src/Master/Full.antt =====
-- co/fullMasterCM.cpp: commits, obsoletion of old versions, mapping and syncing of slaves.
-- What the source does under NDEBUG is modelled: assertions are no guards.
pub mod Invariant
pub mod Obsolete
pub mod Commit
pub mod Rewind
use mathlib.Core.List.{reverse}
use collage.Prelude.{
  ℕ, ◌+◌, ◌-◌, ◌%◌, List, [], ◌∷◌, ◌++◌, Option, none, some, Bool, ◌&&◌, ltb, leb, if◌then◌else◌,
  u32_mod, u64_mod, u128_mod, low,
}
use collage.Master.State.{Master, InstanceData, Message, instance_commit, version_first}

-- ++_version of an uint128_t, and --
abbrev pub succ128 : ℕ → ℕ
succ128 v = (v + 1) % u128_mod

abbrev pub pred128 : ℕ → ℕ
pred128 v = (v + u128_mod - 1) % u128_mod

-- _newInstanceData: a recycled or a new object, stamped with the commit count.
unfoldable pub new_instance_data : Master → Master
new_instance_data m = record m { recycled = m.recycled - 1 }

-- The loop of _obsolete: old versions go from the front, the last one stays.
unfoldable pub obsolete_datas : ℕ → ℕ → List InstanceData → List InstanceData
obsolete_datas commit_count n_versions [] = []
obsolete_datas commit_count n_versions (d ∷ []) = d ∷ []
obsolete_datas commit_count n_versions (d ∷ e ∷ r) =
    if ltb n_versions commit_count && ltb d.commit_count (commit_count - n_versions)
    then obsolete_datas commit_count n_versions (e ∷ r)
    else d ∷ e ∷ r

unfoldable pub obsolete : Master → Master
obsolete m = record m { datas = obsolete_datas m.commit_count m.n_versions m.datas }

unfoldable pub set_auto_obsolete : Master → ℕ → Master
unfolding obsolete
set_auto_obsolete m count = obsolete (record m { n_versions = count })

-- The loop of _updateCommitCount, over the versions newest first.
unfoldable pub drop_future : ℕ → List InstanceData → List InstanceData
drop_future count [] = []
drop_future count (d ∷ []) = d ∷ []
drop_future count (d ∷ e ∷ r) =
    if leb d.commit_count count then d ∷ e ∷ r else drop_future count (e ∷ r)

-- Its end: the oldest version is kept even if it is of the future, and becomes the head.
unfoldable pub keep_minimum : Master → ℕ → List InstanceData → Master
keep_minimum m count [] = record m { commit_count = count; datas = [] }
keep_minimum m count (d ∷ r) =
    if ltb count d.commit_count
    then record m {
      commit_count = count;
      version = d.version;
      datas = reverse (record d { commit_count = 0 } ∷ r);
    }
    else record m { commit_count = count; datas = reverse (d ∷ r) }

-- _updateCommitCount; `none` is CO_COMMIT_NEXT.
unfoldable pub update_commit_count : Master → Option ℕ → Master
unfolding keep_minimum
update_commit_count m none = record m { commit_count = (m.commit_count + 1) % u32_mod }
update_commit_count m (some incarnation) =
    if leb m.commit_count incarnation
    then record m { commit_count = incarnation }
    else keep_minimum m incarnation (drop_future incarnation (reverse m.datas))

-- The stream of a new version sends what the object writes to the slaves, and saves it.
unfoldable pub send_commit : Master → List ℕ → List Message
send_commit m [] = []
send_commit m (b ∷ payload) = elim m.slaves [
  | [] ↦ []
  | n ∷ ns ↦ instance_commit (n ∷ ns) (succ128 m.version) (b ∷ payload) ∷ []
]

-- _commit; the payload is what getInstanceData writes, and hasSentData is whether it wrote anything.
unfoldable pub commit_data : Master → List ℕ → Master
unfolding new_instance_data
commit_data m [] = record m { recycled = (m.recycled - 1) + 1 }
commit_data m (b ∷ payload) = record (new_instance_data m) {
  version = succ128 m.version;
  datas =
      m.datas
      ++ record {
        version = succ128 m.version;
        payload = b ∷ payload;
        commit_count = m.commit_count;
      }
        ∷ [];
}

-- init: the first version.
unfoldable pub init : Master → List ℕ → Master
unfolding new_instance_data
init m payload = record (new_instance_data m) {
  version = succ128 m.version;
  commit_count = (m.commit_count + 1) % u32_mod;
  datas =
      m.datas
      ++ record { version = version_first; payload = payload; commit_count = m.commit_count } ∷ [];
}

-- commit: the new state, the version and what is sent; `none` while it waits for _maxVersion.
unfoldable pub commit : Master → Option ℕ → Bool → List ℕ → Option (Master × ℕ × List Message)
commit m incarnation dirty payload =
    let updated = update_commit_count m incarnation in
    let clean = obsolete updated in
    let head = obsolete (commit_data updated payload) in
    if dirty
    then if leb ((low m.version + 1) % u64_mod) m.max_version
      then some (head, head.version, send_commit updated payload)
      else none
    else some (clean, clean.version, [])
