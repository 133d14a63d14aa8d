-- ===== src/Tests/Slave.antt =====
-- A slave that receives versions and syncs to them.
use collage.Prelude.{
  ℕ, ◌≤◌, ◌≡◌, refl, Bool, true, false, none, some, List, [], ◌∷◌, ◌++◌, arith, ltb, if◌then◌else◌,
  length,
}
use collage.Master.State.{version_head}
use collage.Slave.Versions.{AllReady, DataCommand, VersionStream, is_ready, stream_payload}
use collage.Slave.Manager.{
  Object, Slave, sync, get_head_version, back_version, apply_map_data, add_instance_datas,
}
use collage.Slave.Manager.Sync.{Consecutive, IsSyncedTo, sync-IsSyncedTo, sync_head-IsSyncedTo}
use collage.Slave.Manager.Queue.{cmd_data_all, cmd_data_all-version, apply_map_data_first}
use collage.Slave.Manager.Cached.{add_instance_datas-Consecutive}

-- A parameter of the model: an object that is a list of bytes.
abbrev bytes : Object (List ℕ)
bytes = record { apply_instance_data = λ x d. d; unpack = λ x d. x ++ d; max_versions = 10 }

abbrev command : ℕ → Bool → ℕ → DataCommand
command version is_last byte = record {
  version = version;
  sequence = 0;
  is_last = is_last;
  is_instance = false;
  payload = byte ∷ [];
  size = 100;
}

abbrev stream : ℕ → VersionStream
stream version = record { commands = command version true version ∷ []; version = version }

abbrev slave : Slave (List ℕ)
slave = record {
  object = 9 ∷ [];
  version = 2;
  queued = stream 3 ∷ stream 4 ∷ stream 5 ∷ [];
  current = none;
  acks = [];
  heads = [];
}

slave-Consecutive : Consecutive 3 slave.queued
slave-Consecutive = (refl, (refl, (refl, tt)))

slave-head : 4 ≤ get_head_version slave
unfolding get_head_version back_version
slave-head = omega arith

sync-IsSyncedTo_example :
    (t : Slave (List ℕ)) × (sync bytes slave 4 ≡ some t) × IsSyncedTo bytes 4 slave t slave.queued
sync-IsSyncedTo_example =
    sync-IsSyncedTo bytes slave 4 slave-Consecutive (omega arith) slave-head (omega arith)

runs_dry :
    (t : Slave (List ℕ)) × (sync bytes slave version_head ≡ some t)
    × IsSyncedTo bytes (get_head_version slave) slave t slave.queued
    × (t.queued ≡ [])
unfolding get_head_version back_version
runs_dry = sync_head-IsSyncedTo bytes slave slave-Consecutive (omega arith)

cmd_data_all-version_example :
    cmd_data_all slave (command 6 false 1 ∷ command 6 true 2 ∷ []) ≡ record slave {
      queued =
          slave.queued
          ++ record { commands = command 6 false 1 ∷ command 6 true 2 ∷ []; version = 6 } ∷ [];
      heads = 6 ∷ [];
      current = none;
    }
cmd_data_all-version_example =
    cmd_data_all-version slave (command 6 false 1 ∷ []) (command 6 true 2) refl (refl, tt) refl
      (λ e. omega (arith, e))

apply_map_data_first_example :
    (t : Slave (List ℕ)) × (apply_map_data bytes 4 slave (stream 6 ∷ stream 4 ∷ stream 5 ∷ [])
      ≡ some t)
    × (t.version ≡ 4)
    × (t.queued ≡ stream 5 ∷ [])
    × (t.object ≡ (
        if ltb 0 (length (stream_payload (stream 4))) then stream_payload (stream 4) else 9 ∷ []))
apply_map_data_first_example =
    apply_map_data_first bytes slave 4 (stream 6 ∷ []) (stream 5 ∷ []) (stream 4) (omega arith, tt)
      refl

abbrev cached : List VersionStream
cached = stream 1 ∷ stream 2 ∷ stream 3 ∷ []

cached-AllReady : AllReady cached
unfolding is_ready
cached-AllReady = (refl, (refl, (refl, tt)))

add_instance_datas-Consecutive_example :
    Consecutive 2 (add_instance_datas slave cached 2).queued
    × (length (add_instance_datas slave cached 2).queued ≡ 4)
add_instance_datas-Consecutive_example =
    add_instance_datas-Consecutive slave (stream 3) (stream 4 ∷ stream 5 ∷ []) cached 2 3 1 refl
      slave-Consecutive (refl, (refl, (refl, tt))) cached-AllReady (omega arith) (omega arith)
