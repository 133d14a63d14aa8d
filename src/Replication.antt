-- ===== src/Replication.antt =====
-- A master that commits, the network, and a slave: co/fullMasterCM.cpp with co/versionedSlaveCM.cpp.
-- The network delivers to each node what is sent to it, in order; each commit fits one packet.
pub mod Delivered
use collage.Prelude.{
  ℕ, ◌+◌, ◌<◌, ◌≡◌, true, Option, some, List, [], ◌∷◌, ◌++◌, if◌then◌else◌, length, contains,
}
use collage.Master.State.{Master, Message, instance_commit, version_newest}
use collage.Master.Full.{commit}
use collage.Master.Full.Invariant.{Advances}
use collage.Slave.Versions.{DataCommand, VersionStream}
use collage.Slave.Manager.{Object, Slave, cmd_data}

-- The command that a slave gets for a commit.
abbrev pub commit_command : ℕ → List ℕ → DataCommand
commit_command version payload = record {
  version = version;
  sequence = 0;
  is_last = true;
  is_instance = true;
  payload = payload;
  size = length payload;
}

-- What the slave on a node makes of the messages that a master sends.
abbrev pub deliver : {S : Type 0} → ℕ → Slave S → List Message → Slave S
deliver node s [] = s
deliver node s (instance_commit nodes version payload ∷ ms) =
    deliver node (if contains nodes node then cmd_data s (commit_command version payload) else s) ms
deliver node s (_ ∷ ms) = deliver node s ms

-- Commits of the given payloads, none of them empty, each delivered before the next.
pub data Run {S : Type 0} (node : ℕ) (m : Master) (s : Slave S)
    : List (List ℕ) → Master → Slave S → Type 0 where
  start : Run node m s [] m s
  commits :
      {payloads : List (List ℕ)} {from to : Master} {t : Slave S} (incarnation : Option ℕ) (b : ℕ)
      (payload : List ℕ) (v : ℕ) (sent : List Message)
      → Run node m s payloads from t
      → Advances from incarnation
      → from.version + 1 < version_newest
      → commit from incarnation true (b ∷ payload) ≡ some (to, v, sent)
      → Run node m s (payloads ++ (b ∷ payload) ∷ []) to (deliver node t sent)
