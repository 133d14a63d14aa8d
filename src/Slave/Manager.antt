-- ===== src/Slave/Manager.antt =====
-- co/versionedSlaveCM.cpp. The object is a parameter: its state, and what it does with a full
-- instance and with a delta.
pub mod Sync
pub mod Queue
pub mod Cached
use collage.Prelude.{
  ℕ, ◌+◌, ◌%◌, true, false, not, ◌&&◌, Option, none, some, List, [], ◌∷◌, ◌++◌, ltb, leb, ◌==◌,
  if◌then◌else◌, length, u64_mod, low,
}
use collage.Master.State.{version_none, version_head, version_next}
use collage.Master.Full.{succ128}
use collage.Slave.Versions.{
  DataCommand, VersionStream, empty_stream, is_ready, add_data_command, has_instance_data,
  stream_payload,
}

pub record Object (S : Type 0) : Type 0 where
  pub apply_instance_data : S → List ℕ → S
  pub unpack : S → List ℕ → S
  -- getMaxVersions
  pub max_versions : ℕ

-- What the slave sends: CMD_OBJECT_MAX_VERSION with the version up to which the master may commit.
pub data Ack : Type 0 where
  max_version : ℕ → Ack

-- `queued` is _queuedVersions, front first; `current` is _currentIStream; `heads` are the calls of
-- notifyNewHeadVersion.
pub record Slave (S : Type 0) : Type 0 where
  pub object : S
  pub version : ℕ
  pub queued : List VersionStream
  pub current : Option VersionStream
  pub acks : List Ack
  pub heads : List ℕ

-- getHeadVersion
unfoldable pub back_version : ℕ → List VersionStream → ℕ
back_version v [] = v
back_version v (is ∷ r) = back_version is.version r

unfoldable pub get_head_version : {S : Type 0} → Slave S → ℕ
unfolding back_version
get_head_version s = back_version s.version s.queued

module _ {S : Type 0} (o : Object S) where
  -- _sendAck: no message if the sum overflows, which is the default limit.
  unfoldable pub send_ack : Slave S → Slave S
  send_ack s =
      let limit = (low s.version + o.max_versions) % u64_mod in
      if leb limit (low s.version) then s else record s { acks = s.acks ++ max_version limit ∷ [] }

  unfoldable pub apply_stream : S → VersionStream → S
  unfolding has_instance_data stream_payload
  apply_stream x is =
      if has_instance_data is
      then o.apply_instance_data x (stream_payload is)
      else o.unpack x (stream_payload is)

  -- _unpackOneVersion
  unfoldable pub unpack_one_version : Slave S → VersionStream → Slave S
  unpack_one_version s is =
      send_ack (record s { object = apply_stream s.object is; version = is.version })

  -- The loop of _syncToHead, over the queue.
  unfoldable pub unpack_all : Slave S → List VersionStream → Slave S
  unpack_all s [] = record s { queued = [] }
  unpack_all s (is ∷ r) = unpack_all (unpack_one_version s is) r

  -- The loop of sync, over the queue: `none` while it waits for a version that is not there yet.
  unfoldable pub unpack_until : ℕ → Slave S → List VersionStream → Option (Slave S)
  unpack_until v s [] = if ltb s.version v then none else some (record s { queued = [] })
  unpack_until v s (is ∷ r) =
      let rest = unpack_until v (unpack_one_version s is) r in
      if ltb s.version v then rest else some (record s { queued = is ∷ r })

  -- sync; the version that it returns is that of the new state.
  unfoldable pub sync : Slave S → ℕ → Option (Slave S)
  sync s v =
      if s.version == v
      then some s
      else if v == version_head
      then some (unpack_all s s.queued)
      else unpack_until (if v == version_next then succ128 s.version else v) s s.queued

  -- applyMapData: the first version that is the one asked for; newer commits before it are dropped.
  -- hasData is false for a version without bytes, such as VERSION_NONE. `none` while it waits.
  unfoldable pub apply_map_data : ℕ → Slave S → List VersionStream → Option (Slave S)
  unfolding stream_payload
  apply_map_data v s [] = none
  apply_map_data v s (is ∷ r) =
      if is.version == v
      then some (record s {
        object =
            if ltb 0 (length (stream_payload is))
            then o.apply_instance_data s.object (stream_payload is)
            else s.object;
        version = is.version;
        queued = r;
      })
      else apply_map_data v s r

-- The loop of addInstanceDatas, up to the first stream that is not ready: those older than the queue,
-- and those newer.
unfoldable pub cached_head : ℕ → ℕ → List VersionStream → List VersionStream
unfolding is_ready
cached_head start oldest [] = []
cached_head start oldest (is ∷ r) =
    if ltb is.version start then cached_head start oldest r else elim (is_ready is) [
      | false ↦ []
      | true ↦
          let rest = cached_head start oldest r in if ltb is.version oldest then is ∷ rest else rest
    ]

unfoldable pub cached_tail : ℕ → ℕ → ℕ → List VersionStream → List VersionStream
unfolding is_ready
cached_tail start oldest newest [] = []
cached_tail start oldest newest (is ∷ r) =
    if ltb is.version start then cached_tail start oldest newest r else elim (is_ready is) [
      | false ↦ []
      | true ↦
          let rest = cached_tail start oldest newest r in
          if not (ltb is.version oldest) && ltb newest is.version then is ∷ rest else rest
    ]

unfoldable pub front_version : List VersionStream → ℕ
front_version [] = version_none
front_version (is ∷ _) = is.version

abbrev pub current_stream : Option VersionStream → VersionStream
current_stream none = empty_stream
current_stream (some is) = is

module _ {S : Type 0} where
  -- addInstanceDatas. `head` is filled at its front and emptied from there to the front of the queue,
  -- so the older versions stand in order before it.
  unfoldable pub add_instance_datas : Slave S → List VersionStream → ℕ → Slave S
  unfolding cached_head cached_tail front_version back_version
  add_instance_datas s cache start =
      let oldest = front_version s.queued in
      let newest = back_version version_none s.queued in
      record s {
        queued =
            cached_head start oldest cache ++ (s.queued ++ cached_tail start oldest newest cache);
      }

  -- The end of _cmdData: a complete version is queued and announced.
  unfoldable pub store_stream : Slave S → VersionStream → Slave S
  store_stream s stream =
      if is_ready stream
      then record s {
        queued = s.queued ++ stream ∷ [];
        heads = s.heads ++ stream.version ∷ [];
        current = none;
      }
      else record s { current = some stream }

  -- _cmdData: a command of the version that is arriving.
  unfoldable pub cmd_data : Slave S → DataCommand → Slave S
  unfolding store_stream
  cmd_data s c = store_stream s (add_data_command (current_stream s.current) c)
