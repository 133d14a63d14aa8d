-- ===== src/Master/Mapping.antt =====
-- co/fullMasterCM.cpp and co/objectCM.cpp: what a slave is sent when it maps or syncs an object.
pub mod Coverage
use mathlib.Core.List.{get_last?}
use collage.Prelude.{
  ℕ, List, [], ◌∷◌, ◌++◌, none, some, Bool, true, false, ◌&&◌, ◌||◌, ltb, leb, ◌==◌, if◌then◌else◌,
  map,
}
use collage.Master.State.{
  Master, InstanceData, MapCommand, Message, instance_map, instance_sync, instance_push,
  instance_data, object_push, sync_reply, version_oldest, version_none, send_map_success,
  send_map_reply, send_empty_version,
}
use collage.Master.Full.{succ128, pred128}

-- The versions that _initSlave decides to send, first and last.
pub record Range : Type 0 where
  pub start : ℕ
  pub end : ℕ

-- The oldest retained version; `datas` is never empty once the master is initialised.
unfoldable pub oldest : Master → ℕ
oldest m = elim m.datas [ [] ↦ version_none | d ∷ _ ↦ d.version ]

-- `start` before the cache is considered; it is the version of the reply.
unfoldable pub first_version : Master → MapCommand → ℕ
unfolding oldest
first_version m c =
    if (c.requested_version == version_oldest) || ltb c.requested_version (oldest m)
    then oldest m
    else c.requested_version

abbrev pub max128 : ℕ → ℕ → ℕ
max128 a b = if ltb b a then a else b

-- Versions that the slave has in its cache are not sent, at either end.
unfoldable pub send_range : Master → MapCommand → Bool → Range
send_range m c use_cache =
    let start = first_version m c in
    if use_cache
    then if leb c.min_cached_version start && leb start c.max_cached_version
      then record { start = succ128 c.max_cached_version; end = m.version }
      else if c.max_cached_version == m.version
      then record { start = start; end = max128 start (pred128 c.min_cached_version) }
      else record { start = start; end = m.version }
    else record { start = start; end = m.version }

-- The two loops of _initSlave: skip what is below `start`, take while not above `end`.
unfoldable pub skip_below : ℕ → List InstanceData → List InstanceData
skip_below start [] = []
skip_below start (d ∷ r) = if ltb d.version start then skip_below start r else d ∷ r

unfoldable pub take_until : ℕ → List InstanceData → List InstanceData
take_until end [] = []
take_until end (d ∷ r) = if leb d.version end then d ∷ take_until end r else []

unfoldable pub sent_datas : Master → MapCommand → Bool → List InstanceData
sent_datas m c use_cache =
    let range = send_range m c use_cache in take_until range.end (skip_below range.start m.datas)

-- ObjectInstanceDataOStream::sendMapData
unfoldable pub send_map_data : MapCommand → InstanceData → Message
send_map_data c d = instance_map c.node c.instance_id d.version d.payload

-- _initSlave. It never fails.
unfoldable pub init_slave : Master → MapCommand → Bool → List Message
unfolding send_map_data send_map_success send_map_reply
init_slave m c use_cache = elim (sent_datas m c use_cache) [
  | [] ↦ send_map_success c false ∷ send_map_reply c (first_version m c) true use_cache false ∷ []
  | d ∷ r ↦
      (send_map_success c true ∷ map (send_map_data c) (d ∷ r))
      ++ send_map_reply c (first_version m c) true use_cache true ∷ []
]

-- ObjectCM::_addSlave
unfoldable pub add_slave_reply : Master → MapCommand → List Message
unfolding init_slave send_map_success send_empty_version send_map_reply
add_slave_reply m c =
    if c.requested_version == version_none
    then send_map_success c false
      ∷ send_empty_version c version_none false
      ∷ send_map_reply c version_none true false false
      ∷ []
    else init_slave m c (c.use_cache && (c.master_instance_id == m.instance_id))

-- push: the newest version, then the notification. No code path leaves `datas` empty.
unfoldable pub push : Master → ℕ → ℕ → List ℕ → List Message
push m group type nodes = elim (get_last? m.datas) [
  | none ↦ []
  | some d ↦ instance_push nodes d.version d.payload ∷ object_push nodes m.object group type ∷ []
]

unfoldable pub sync_uses_cache : Master → MapCommand → Bool
sync_uses_cache m c =
    c.use_cache && (c.master_instance_id == m.instance_id) && (c.max_cached_version == m.version)

-- sendSync; the command's object is this one.
unfoldable pub send_sync : Master → MapCommand → List Message
unfolding sync_uses_cache
send_sync m c =
    let reply = sync_reply c.node m.object c.request_id true c.use_cache (sync_uses_cache m c) in
    if sync_uses_cache m c then reply ∷ [] else elim (get_last? m.datas) [
      | none ↦ reply ∷ []
      | some d ↦ instance_sync c.node c.request_id d.version d.payload ∷ reply ∷ []
    ]

-- sendInstanceData: speculative, and only while nobody has mapped the object.
unfoldable pub send_instance_data : Master → List ℕ → List Message
send_instance_data m nodes = elim m.slaves [
  | [] ↦ elim (get_last? m.datas) [
    | none ↦ []
    | some d ↦ instance_data nodes d.version d.payload ∷ []
  ]
  | _ ∷ _ ↦ []
]
