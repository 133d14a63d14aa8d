-- ===== src/Tests/Replication.antt =====
-- Two commits, and a slave on node 20.
use collage.Prelude.{ℕ, ◌+◌, ◌≡◌, refl, none, some, List, [], ◌∷◌, ◌++◌, arith, u64_max}
use collage.Master.State.{Master, Message, InstanceData, instance_commit, version_head}
use collage.Master.Full.{
  commit, update_commit_count, commit_data, send_commit, obsolete, obsolete_datas,
  new_instance_data,
}
use collage.Slave.Manager.{Object, Slave, sync}
use collage.Replication.{deliver, Run, start, commits}
use collage.Replication.Delivered.{apply_payloads, sync_head-Run}

abbrev bytes : Object (List ℕ)
bytes = record { apply_instance_data = λ x d. d; unpack = λ x d. x ++ d; max_versions = 10 }

abbrev datum : ℕ → ℕ → List ℕ → InstanceData
datum version count payload = record { version = version; payload = payload; commit_count = count }

abbrev master : Master
master = record {
  object = 7;
  instance_id = 1;
  slaves = 20 ∷ [];
  slave_data = record { node = 20; max_version = u64_max; instance_id = 4 } ∷ [];
  version = 1;
  max_version = u64_max;
  commit_count = 1;
  n_versions = 5;
  datas = datum 1 1 (3 ∷ []) ∷ [];
  recycled = 0;
}

abbrev second : Master
second = record master {
  version = 2;
  commit_count = 2;
  datas = datum 1 1 (3 ∷ []) ∷ datum 2 2 (4 ∷ []) ∷ [];
}

abbrev third : Master
third = record master {
  version = 3;
  commit_count = 3;
  datas = datum 1 1 (3 ∷ []) ∷ datum 2 2 (4 ∷ []) ∷ datum 3 3 (5 ∷ []) ∷ [];
}

abbrev slave : Slave (List ℕ)
slave = record { object = 3 ∷ []; version = 1; queued = []; current = none; acks = []; heads = [] }

abbrev first_sent : List Message
first_sent = instance_commit (20 ∷ []) 2 (4 ∷ []) ∷ []

abbrev second_sent : List Message
second_sent = instance_commit (20 ∷ []) 3 (5 ∷ []) ∷ []

abbrev received : Slave (List ℕ)
received = deliver 20 (deliver 20 slave first_sent) second_sent

two_commits : Run 20 master slave ((4 ∷ []) ∷ (5 ∷ []) ∷ []) third received
unfolding commit update_commit_count commit_data send_commit obsolete obsolete_datas
    new_instance_data
two_commits =
    commits {payloads = (4 ∷ []) ∷ []} {from = second} none 5 [] 3 second_sent
      (commits {payloads = []} {from = master} none 4 [] 2 first_sent start (omega arith)
        (omega arith) refl)
      (omega arith) (omega arith) refl

sync_head-Run_example :
    (u : Slave (List ℕ)) × (sync bytes received version_head ≡ some u)
    × (u.version ≡ third.version)
    × (u.version ≡ master.version + 2)
    × (u.object ≡ apply_payloads bytes slave.object ((4 ∷ []) ∷ (5 ∷ []) ∷ []))
    × (u.queued ≡ [])
sync_head-Run_example =
    sync_head-Run bytes 20 master third slave received ((4 ∷ []) ∷ (5 ∷ []) ∷ []) refl refl refl
      refl two_commits (omega arith)
