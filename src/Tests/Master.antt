-- ===== src/Tests/Master.antt =====
-- A master that commits, and whose slaves come and go.
use collage.Prelude.{
  ◌≢◌, ℕ, ◌+◌, ◌≤◌, ◌≡◌, refl, ◌∙◌, ◌⊎◌, inl, inr, true, none, some, List, [], ◌∷◌, ◌++◌, arith,
  ◌==◌, if◌then◌else◌, Bool-cases, length, contains, All, u64_max,
}
use mathlib.Core.List.{get_last?}
use collage.Master.State.{Master, InstanceData, MapCommand, Message, instance_commit, new_master}
use collage.Master.Full.{
  init, commit, commit_data, send_commit, update_commit_count, obsolete, obsolete_datas,
  new_instance_data,
}
use collage.Master.Full.Invariant.{IsConsistent, commit-IsConsistent}
use collage.Master.Full.Commit.{committed, commit_publishes, commit_nothing}
use collage.Master.Full.Obsolete.{IsOld, IsRecent, obsolete_datas-split}
use collage.Master.Full.Rewind.{rewind_loses_head}
use collage.Master.Mapping.{first_version, oldest, sent_datas}
use collage.Master.Mapping.Coverage.{has_version, sent_datas_cover}
use collage.Master.Slaves.{lowest_limit, add_slave, remove_slave}
use collage.Master.Slaves.Subscribed.{IsDistinct, IsSubscribed, IsUniqueSort}
use collage.Master.Slaves.Limits.{Allows, commit_allowed}
use collage.Master.History.{Step, Reach, IsSound, history-IsSound}

-- Two slaves, one of them with a limit; versions 1 to 3, each of its own count.
abbrev datum : ℕ → ℕ → InstanceData
datum version count = record { version = version; payload = version ∷ []; commit_count = count }

abbrev master : Master
master = record {
  object = 7;
  instance_id = 1;
  slaves = 20 ∷ 30 ∷ [];
  slave_data =
      record { node = 20; max_version = 5; instance_id = 4 }
      ∷ record { node = 30; max_version = u64_max; instance_id = 4 }
      ∷ [];
  version = 3;
  max_version = 5;
  commit_count = 3;
  n_versions = 1;
  datas = datum 1 1 ∷ datum 2 2 ∷ datum 3 3 ∷ [];
  recycled = 0;
}

abbrev next_master : Master
next_master = record master {
  version = 4;
  commit_count = 4;
  datas = datum 3 3 ∷ record { version = 4; payload = 8 ∷ 9 ∷ []; commit_count = 4 } ∷ [];
}

master-IsConsistent : IsConsistent master
master-IsConsistent = record {
  ends = (refl, (refl, refl));
  counted = (omega arith, (omega arith, omega arith));
}

master-IsSubscribed : IsSubscribed master
unfolding lowest_limit
master-IsSubscribed = record { listed = λ n. refl; distinct = (refl, (refl, tt)); limited = refl }

abbrev sent_messages : List Message
sent_messages = instance_commit (20 ∷ 30 ∷ []) 4 (8 ∷ 9 ∷ []) ∷ []

committed_run : commit master none true (8 ∷ 9 ∷ []) ≡ some (next_master, 4, sent_messages)
unfolding commit update_commit_count commit_data send_commit obsolete obsolete_datas
    new_instance_data
committed_run = refl

commit-IsConsistent_example : IsConsistent next_master
commit-IsConsistent_example =
    commit-IsConsistent master next_master none true (8 ∷ 9 ∷ []) 4 sent_messages
      master-IsConsistent (omega arith) (omega arith) committed_run

commit_publishes_example :
    (4 ≡ master.version + 1)
    × (next_master.version ≡ 4)
    × (4 ≤ master.max_version)
    × (get_last? next_master.datas ≡ some (committed master none (8 ∷ 9 ∷ [])))
    × (((master.slaves ≡ []) × (sent_messages ≡ []))
        ⊎ ((master.slaves ≢ [])
            × (sent_messages
                ≡ instance_commit master.slaves (master.version + 1) (8 ∷ 9 ∷ []) ∷ [])))
commit_publishes_example =
    commit_publishes master next_master none 8 (9 ∷ []) 4 sent_messages (omega arith) (omega arith)
      committed_run

abbrev idle_master : Master
idle_master = record master { commit_count = 4; datas = datum 3 3 ∷ []; recycled = 1 }

idle_run : commit master none true [] ≡ some (idle_master, 3, [])
unfolding commit update_commit_count commit_data send_commit obsolete obsolete_datas
idle_run = refl

abbrev no_messages : List Message
no_messages = []

dirty_commit_without_data :
    (3 ≡ master.version)
    × (get_last? idle_master.datas ≡ get_last? master.datas)
    × (no_messages ≡ [])
dirty_commit_without_data =
    commit_nothing master idle_master none 3 no_messages (omega arith) idle_run

commit_allowed_example : All (Allows 4) master.slave_data
commit_allowed_example =
    commit_allowed master next_master none 8 (9 ∷ []) 4 sent_messages master-IsSubscribed
      (omega arith) (omega arith) committed_run

obsolete_datas-split_example :
    (get_last? (obsolete_datas 3 1 master.datas) ≡ some (datum 3 3))
    × ((removed : List InstanceData) × (master.datas ≡ removed ++ obsolete_datas 3 1 master.datas)
        × All (IsOld 3 1) removed
        × ((length (obsolete_datas 3 1 master.datas) ≡ 1)
            ⊎ All (IsRecent 3 1) (obsolete_datas 3 1 master.datas)))
obsolete_datas-split_example = obsolete_datas-split 3 3 1 master.datas master-IsConsistent.counted

rewind_loses_head_example :
    ((update_commit_count master (some 2)).version ≡ 3)
    × ((update_commit_count master (some 2)).datas ≡ datum 1 1 ∷ datum 2 2 ∷ [])
    × ((datum 2 2).version + 1 ≡ master.version)
    × (¬ IsConsistent (update_commit_count master (some 2)))
    × ((new : InstanceData) × ((commit_data (update_commit_count master (some 2)) (8 ∷ [])).datas
          ≡ datum 1 1 ∷ datum 2 2 ∷ new ∷ [])
        × (new.version ≡ 4))
rewind_loses_head_example =
    rewind_loses_head master (datum 1 1 ∷ []) (datum 2 2) (datum 3 3) 2 8 [] master-IsConsistent
      refl (omega arith) (omega arith) (omega arith) (omega arith)

-- Version 1 is asked for; the slave has it and version 2 in its cache.
abbrev request : MapCommand
request = record {
  node = 40;
  requested_version = 1;
  min_cached_version = 1;
  max_cached_version = 2;
  max_version = 0;
  request_id = 9;
  instance_id = 3;
  master_instance_id = 1;
  use_cache = true;
}

sent_datas_cover_example :
    ((true ≡ true) × (1 ≤ 3) × (3 ≤ 2)) ⊎ (has_version 3 (sent_datas master request true) ≡ true)
unfolding first_version oldest
sent_datas_cover_example =
    sent_datas_cover master request true 3 master-IsConsistent (omega arith) (omega arith)
      (omega arith) (omega arith)

-- A parameter of the model: what usort keeps, in its own order.
abbrev unique : List ℕ → List ℕ
unique [] = []
unique (x ∷ xs) = if contains xs x then unique xs else x ∷ unique xs

unique_members : (l : List ℕ) (n : ℕ) → contains (unique l) n ≡ contains l n
unique_members [] n = refl
unique_members (x ∷ xs) n = elim (Bool-cases (contains xs x)) [
  | inl t ↦ rw t (elim (Bool-cases (x == n)) [
    | inl e ↦ let same : n ≡ x = ground arith in rw e (unique_members xs n ∙ rw same t)
    | inr e ↦ rw e (unique_members xs n)
  ])
  | inr t ↦ rw (t, unique_members xs n)
]

unique-IsDistinct : (l : List ℕ) → IsDistinct (unique l)
unique-IsDistinct [] = tt
unique-IsDistinct (x ∷ xs) = elim (Bool-cases (contains xs x)) [
  | inl t ↦ rw t (unique-IsDistinct xs)
  | inr t ↦ rw t (unique_members xs x ∙ t, unique-IsDistinct xs)
]

unique-IsUniqueSort : IsUniqueSort unique
unique-IsUniqueSort = record { same_members = unique_members; no_duplicates = unique-IsDistinct }

abbrev mapped : Master
mapped = (add_slave unique (init (new_master 7 1) (5 ∷ [])) request).0

abbrev left_again : Master
left_again = remove_slave unique mapped 40 3

history-IsSound_example : IsSound left_again
history-IsSound_example =
    history-IsSound unique unique-IsUniqueSort 7 1 (5 ∷ []) left_again
      (Reach.later (Reach.later Reach.here (Step.adds request refl)) (Step.removes 40 3 refl))
