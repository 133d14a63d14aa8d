-- ===== src/Master/State.antt =====
-- The state of a FullMasterCM with its bases, the map command, and the messages that it sends.
use collage.Prelude.{ℕ, List, [], Bool, u64_max}

-- VersionedMasterCM::SlaveData
pub record SlaveData : Type 0 where
  pub node : ℕ
  pub max_version : ℕ
  pub instance_id : ℕ

-- FullMasterCM::InstanceData: the version and the saved bytes of its output stream, and the count.
pub record InstanceData : Type 0 where
  pub version : ℕ
  pub payload : List ℕ
  pub commit_count : ℕ

-- `datas` is _instanceDatas, oldest first. Of _instanceDataCache only its size is kept: every field
-- of a recycled object is set anew before it is used. `object` and `instance_id` are those of the
-- managed object.
pub record Master : Type 0 where
  pub object : ℕ
  pub instance_id : ℕ
  pub slaves : List ℕ
  pub slave_data : List SlaveData
  pub version : ℕ
  pub max_version : ℕ
  pub commit_count : ℕ
  pub n_versions : ℕ
  pub datas : List InstanceData
  pub recycled : ℕ

-- The values of co/objectVersion.h.
abbrev pub version_none : ℕ
version_none = 0

abbrev pub version_first : ℕ
version_first = 1

abbrev pub version_newest : ℕ
version_newest = 0xfffffffffffffffb

abbrev pub version_oldest : ℕ
version_oldest = 0xfffffffffffffffc

abbrev pub version_next : ℕ
version_next = 0xfffffffffffffffd

abbrev pub version_invalid : ℕ
version_invalid = 0xfffffffffffffffe

abbrev pub version_head : ℕ
version_head = 0xffffffffffffffff

-- MasterCMCommand: the request of a slave node to map an object, or to sync it.
pub record MapCommand : Type 0 where
  pub node : ℕ
  pub requested_version : ℕ
  pub min_cached_version : ℕ
  pub max_cached_version : ℕ
  pub max_version : ℕ
  pub request_id : ℕ
  pub instance_id : ℕ
  pub master_instance_id : ℕ
  pub use_cache : Bool

-- What is put on the wire, with the fields that the receiver acts on.
pub data Message : Type 0 where
  -- ObjectInstanceDataOStream, by its command: commit, map, sync, push, speculative instance data
  instance_commit : List ℕ → ℕ → List ℕ → Message
  instance_map : ℕ → ℕ → ℕ → List ℕ → Message
  instance_sync : ℕ → ℕ → ℕ → List ℕ → Message
  instance_push : List ℕ → ℕ → List ℕ → Message
  instance_data : List ℕ → ℕ → List ℕ → Message
  empty_version : ℕ → ℕ → ℕ → Bool → Message
  -- CMD_NODE_MAP_OBJECT_SUCCESS: node, request, instance, multicast
  map_success : ℕ → ℕ → ℕ → Bool → Message
  -- CMD_NODE_MAP_OBJECT_REPLY: node, version, request, result, command's and reply's use of the
  -- cache, multicast
  map_reply : ℕ → ℕ → ℕ → Bool → Bool → Bool → Bool → Message
  -- CMD_NODE_OBJECT_PUSH: nodes, object, group, type
  object_push : List ℕ → ℕ → ℕ → ℕ → Message
  -- CMD_NODE_SYNC_OBJECT_REPLY: node, object, request, result, command's and reply's use of the cache
  sync_reply : ℕ → ℕ → ℕ → Bool → Bool → Bool → Message

-- The constructors of VersionedMasterCM and FullMasterCM.
unfoldable pub new_master : ℕ → ℕ → Master
new_master object instance_id = record {
  object = object;
  instance_id = instance_id;
  slaves = [];
  slave_data = [];
  version = version_none;
  max_version = u64_max;
  commit_count = 0;
  n_versions = 0;
  datas = [];
  recycled = 0;
}

-- ObjectCM::_sendMapSuccess
unfoldable pub send_map_success : MapCommand → Bool → Message
send_map_success c multicast = map_success c.node c.request_id c.instance_id multicast

-- ObjectCM::_sendMapReply
unfoldable pub send_map_reply : MapCommand → ℕ → Bool → Bool → Bool → Message
send_map_reply c version result use_cache multicast =
    map_reply c.node version c.request_id result c.use_cache use_cache multicast

-- ObjectCM::_sendEmptyVersion
unfoldable pub send_empty_version : MapCommand → ℕ → Bool → Message
send_empty_version c version multicast = empty_version c.node c.instance_id version multicast
