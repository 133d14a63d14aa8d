-- ===== src/Slave/Versions.antt =====
-- co/objectDataIStream.cpp: the commands of one version of an object.
use collage.Prelude.{
  All, ◌≡◌, true, ℕ, ◌+◌, Bool, false, not, List, [], ◌∷◌, ◌++◌, map, ◌==◌, if◌then◌else◌, flatten,
}
use collage.Master.State.{version_invalid}

-- ObjectDataICommand, with the fields that the stream reads. `size` is the size of the whole command.
pub record DataCommand : Type 0 where
  pub version : ℕ
  pub sequence : ℕ
  pub is_last : Bool
  pub is_instance : Bool
  pub payload : List ℕ
  pub size : ℕ

-- ObjectDataIStream: _commands and _version; no command has been used up yet.
pub record VersionStream : Type 0 where
  pub commands : List DataCommand
  pub version : ℕ

-- The constructor and reset().
abbrev pub empty_stream : VersionStream
empty_stream = record { commands = []; version = version_invalid }

unfoldable pub is_ready : VersionStream → Bool
is_ready s = not (s.version == version_invalid)

abbrev pub AllReady : List VersionStream → Type 0
AllReady l = All (λ is. is_ready is ≡ true) l

unfoldable pub last_version : List DataCommand → ℕ
last_version [] = version_invalid
last_version (c ∷ []) = c.version
last_version (c ∷ d ∷ r) = last_version (d ∷ r)

unfoldable pub get_pending_version : VersionStream → ℕ
unfolding last_version
get_pending_version s = last_version s.commands

-- addDataCommand; _setReady publishes the version.
unfoldable pub add_data_command : VersionStream → DataCommand → VersionStream
unfolding get_pending_version
add_data_command s c =
    let added : VersionStream = record s { commands = s.commands ++ c ∷ [] } in
    if c.is_last then record added { version = get_pending_version added } else added

unfoldable pub data_size : List DataCommand → ℕ
data_size [] = 0
data_size (c ∷ r) = c.size + data_size r

unfoldable pub get_data_size : VersionStream → ℕ
unfolding data_size
get_data_size s = data_size s.commands

-- hasInstanceData, of a stream that is not empty.
unfoldable pub has_instance_data : VersionStream → Bool
has_instance_data s = elim s.commands [ [] ↦ false | c ∷ _ ↦ c.is_instance ]

-- What the object reads from the stream: the payloads in order.
unfoldable pub stream_payload : VersionStream → List ℕ
stream_payload s = flatten (map (λ c. c.payload) s.commands)
