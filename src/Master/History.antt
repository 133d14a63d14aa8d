-- ===== src/Master/History.antt =====
-- co/fullMasterCM.cpp and co/versionedMasterCM.cpp: sequences of the operations of a master.
use collage.Prelude.{
  ℕ, ◌+◌, ◌<◌, ◌≡◌, refl, inl, inr, Bool, Option, some, List, [], ◌∷◌, arith, Bool-cases, contains,
  u128_mod, u64_max,
}
use collage.Master.State.{SlaveData, Master, MapCommand, Message, new_master}
use collage.Master.Full.{init, commit, obsolete, set_auto_obsolete}
use collage.Master.Full.Invariant.{
  IsConsistent, Advances, commit-IsConsistent, commit-cases, obsolete-IsConsistent,
}
use collage.Master.Full.{update_commit_count, commit_data}
use collage.Master.Full.Commit.{update_commit_count_fields}
use collage.Master.Slaves.{
  lowest_limit, remove_slaves, cmd_max_version, add_slave, remove_slave, has_slave,
}
use collage.Master.Slaves.Subscribed.{
  IsSubscribed, IsUniqueSort, add_slave-IsSubscribed, remove_slave-IsSubscribed,
  remove_slaves-IsSubscribed, cmd_max_version-IsSubscribed,
}

module _ (usort : List ℕ → List ℕ) where
  -- What can happen to a master after init. A commit that waits is no step.
  pub data Step (m next : Master) : Type 0 where
    commits :
        (incarnation : Option ℕ) (dirty : Bool) (payload : List ℕ) (v : ℕ) (sent : List Message)
        → Advances m incarnation
        → m.version + 1 < u128_mod
        → commit m incarnation dirty payload ≡ some (next, v, sent)
        → Step m next
    obsoletes : (count : ℕ) → next ≡ set_auto_obsolete m count → Step m next
    adds : (c : MapCommand) → next ≡ (add_slave usort m c).0 → Step m next
    removes : (node instance_id : ℕ) → next ≡ remove_slave usort m node instance_id → Step m next
    leaves : (node : ℕ) → next ≡ remove_slaves m node → Step m next
    limits :
        (node version slave_id : ℕ) → next ≡ cmd_max_version m node version slave_id → Step m next

  pub data Reach (m : Master) : Master → Type 0 where
    here : Reach m m
    later : {next last : Master} → Reach m next → Step next last → Reach m last

pub record IsSound (m : Master) : Type 0 where
  pub consistent : IsConsistent m
  pub subscribed : IsSubscribed m

abbrev searched : ℕ → ℕ → SlaveData
searched node instance_id = record { node = node; max_version = u64_max; instance_id = instance_id }

init-IsSound :
    (object instance_id : ℕ) (payload : List ℕ)
    → IsSound (init (new_master object instance_id) payload)
unfolding init new_master lowest_limit
init-IsSound object instance_id payload = record {
  consistent = record { ends = refl; counted = omega arith };
  subscribed = record { listed = λ n. refl; distinct = tt; limited = refl };
}

IsSubscribed-update :
    (m : Master) (incarnation : Option ℕ)
    → Advances m incarnation
    → IsSubscribed m
    → IsSubscribed (update_commit_count m incarnation)
IsSubscribed-update m incarnation a k =
    rw (update_commit_count_fields m incarnation a)
      (record { listed = k.listed; distinct = k.distinct; limited = k.limited })

IsSubscribed-obsolete : (m : Master) → IsSubscribed m → IsSubscribed (obsolete m)
unfolding obsolete
IsSubscribed-obsolete m k = record { listed = k.listed; distinct = k.distinct; limited = k.limited }

IsSubscribed-commit_data :
    (m : Master) (payload : List ℕ) → IsSubscribed m → IsSubscribed (commit_data m payload)
unfolding commit_data
IsSubscribed-commit_data m [] k = record {
  listed = k.listed;
  distinct = k.distinct;
  limited = k.limited;
}
IsSubscribed-commit_data m (b ∷ payload) k = record {
  listed = k.listed;
  distinct = k.distinct;
  limited = k.limited;
}

commit-IsSubscribed :
    (m next : Master) (incarnation : Option ℕ) (dirty : Bool) (payload : List ℕ) (v : ℕ)
    (sent : List Message)
    → IsSubscribed m
    → Advances m incarnation
    → commit m incarnation dirty payload ≡ some (next, v, sent)
    → IsSubscribed next
commit-IsSubscribed m next incarnation dirty payload v sent k a e =
    elim (commit-cases m next incarnation dirty payload v sent e) [
      | inl (_, same, _, _) ↦ rw same (IsSubscribed-obsolete _ updated)
      | inr (_, same, _, _, _) ↦
          rw same (IsSubscribed-obsolete _ (IsSubscribed-commit_data _ payload updated))
    ]
  where
    updated : IsSubscribed (update_commit_count m incarnation)
    updated = IsSubscribed-update m incarnation a k

set_auto_obsolete-IsSound :
    (m : Master) (count : ℕ) → IsSound m → IsSound (set_auto_obsolete m count)
unfolding set_auto_obsolete
set_auto_obsolete-IsSound m count v =
    let changed : Master = record m { n_versions = count } in
    record {
      consistent =
          obsolete-IsConsistent changed
            (record { ends = v.consistent.ends; counted = v.consistent.counted });
      subscribed = IsSubscribed-obsolete changed (record {
        listed = v.subscribed.listed;
        distinct = v.subscribed.distinct;
        limited = v.subscribed.limited;
      });
    }

remove_slaves-IsConsistent :
    (m : Master) (node : ℕ) → IsConsistent m → IsConsistent (remove_slaves m node)
unfolding remove_slaves
remove_slaves-IsConsistent m node v = elim (Bool-cases (contains m.slaves node)) [
  | inl t ↦ rw t (record { ends = v.ends; counted = v.counted })
  | inr t ↦ rw t v
]

cmd_max_version-IsConsistent :
    (m : Master) (node version slave_id : ℕ)
    → IsConsistent m
    → IsConsistent (cmd_max_version m node version slave_id)
unfolding cmd_max_version
cmd_max_version-IsConsistent m node version slave_id v =
    elim (Bool-cases (has_slave (searched node slave_id) m.slave_data)) [
      | inl t ↦ rw t (record { ends = v.ends; counted = v.counted })
      | inr t ↦ rw t v
    ]

module _ (usort : List ℕ → List ℕ) (law : IsUniqueSort usort) where
  remove_slave-IsConsistent :
      (m : Master) (node instance_id : ℕ)
      → IsConsistent m
      → IsConsistent (remove_slave usort m node instance_id)
  unfolding remove_slave
  remove_slave-IsConsistent m node instance_id v =
      elim (Bool-cases (has_slave (searched node instance_id) m.slave_data)) [
        | inl t ↦ rw t (record { ends = v.ends; counted = v.counted })
        | inr t ↦ rw t v
      ]

  add_slave-IsConsistent :
      (m : Master) (c : MapCommand) → IsConsistent m → IsConsistent (add_slave usort m c).0
  unfolding add_slave
  add_slave-IsConsistent m c v = record { ends = v.ends; counted = v.counted }

  -- One step keeps both invariants.
  pub Step-IsSound : (m next : Master) → Step usort m next → IsSound m → IsSound next
  Step-IsSound m next (commits incarnation dirty payload v sent a h e) k = record {
    consistent = commit-IsConsistent m next incarnation dirty payload v sent k.consistent a h e;
    subscribed = commit-IsSubscribed m next incarnation dirty payload v sent k.subscribed a e;
  }
  Step-IsSound m next (obsoletes count e) k = rw e (set_auto_obsolete-IsSound m count k)
  Step-IsSound m next (adds c e) k = rw e (record {
    consistent = add_slave-IsConsistent m c k.consistent;
    subscribed = add_slave-IsSubscribed usort law m c k.subscribed;
  })
  Step-IsSound m next (removes node instance_id e) k = rw e (record {
    consistent = remove_slave-IsConsistent m node instance_id k.consistent;
    subscribed = remove_slave-IsSubscribed usort law m node instance_id k.subscribed;
  })
  Step-IsSound m next (leaves node e) k = rw e (record {
    consistent = remove_slaves-IsConsistent m node k.consistent;
    subscribed = remove_slaves-IsSubscribed m node k.subscribed;
  })
  Step-IsSound m next (limits node version slave_id e) k = rw e (record {
    consistent = cmd_max_version-IsConsistent m node version slave_id k.consistent;
    subscribed = cmd_max_version-IsSubscribed m node version slave_id k.subscribed;
  })

  Reach-IsSound : {m next : Master} → IsSound m → Reach usort m next → IsSound next
  Reach-IsSound k here = k
  Reach-IsSound k (later r s) = Step-IsSound _ _ s (Reach-IsSound k r)

  -- After init and any sequence of commits with counts that do not decrease, changes of the number
  -- of versions to retain, and slaves that come, go and report limits: the retained versions are
  -- consecutive up to the current one with their counts in order, the node list holds each node of
  -- a slave once and no other, and the commit limit is the lowest of the slaves' limits.
  pub history-IsSound :
      (object instance_id : ℕ) (payload : List ℕ) (m : Master)
      → Reach usort (init (new_master object instance_id) payload) m
      → IsSound m
  history-IsSound object instance_id payload m r =
      Reach-IsSound (init-IsSound object instance_id payload) r
