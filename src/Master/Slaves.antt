-- ===== src/Master/Slaves.antt =====
-- co/versionedMasterCM.cpp: the subscribed slaves and the limit that they put on commits.
-- lunchbox::usort is a parameter.
pub mod Subscribed
pub mod Limits
use collage.Prelude.{
  ℕ, ◌+◌, ◌%◌, List, [], ◌∷◌, ◌++◌, Bool, true, ◌&&◌, not, ltb, ◌==◌, if◌then◌else◌, map, filter_by,
  contains, u64_max, u64_mod, low,
}
use collage.Master.State.{Master, SlaveData, MapCommand, Message}
use collage.Master.Mapping.{add_slave_reply}

-- SlaveData::operator ==
unfoldable pub same_slave : SlaveData → SlaveData → Bool
same_slave a b = (a.node == b.node) && (a.instance_id == b.instance_id)

abbrev pub lower_limit : ℕ → SlaveData → ℕ
lower_limit limit s =
    if not (s.max_version == u64_max) && ltb s.max_version limit then s.max_version else limit

-- The loop of _updateMaxVersion, which starts at the largest number.
unfoldable pub lowest_limit : ℕ → List SlaveData → ℕ
lowest_limit limit [] = limit
lowest_limit limit (s ∷ r) = lowest_limit (lower_limit limit s) r

unfoldable pub update_max_version : Master → Master
unfolding lowest_limit
update_max_version m = record m { max_version = lowest_limit u64_max m.slave_data }

-- The limit of a new slave: 0 means none; another one counts from the current version.
unfoldable pub initial_limit : Master → MapCommand → ℕ
initial_limit m c =
    if c.max_version == 0
    then u64_max
    else if ltb c.max_version u64_max
    then (c.max_version + low m.version) % u64_mod
    else c.max_version

unfoldable pub new_slave : Master → MapCommand → SlaveData
unfolding initial_limit
new_slave m c = record {
  node = c.node;
  max_version = initial_limit m c;
  instance_id = c.instance_id;
}

-- std::vector::erase of the first element that lunchbox::find returns.
unfoldable pub erase_slave : SlaveData → List SlaveData → List SlaveData
unfolding same_slave
erase_slave s [] = []
erase_slave s (t ∷ r) = if same_slave t s then r else t ∷ erase_slave s r

unfoldable pub has_slave : SlaveData → List SlaveData → Bool
unfolding same_slave
has_slave s [] = Bool.false
has_slave s (t ∷ r) = if same_slave t s then true else has_slave s r

unfoldable pub erase_node : ℕ → List ℕ → List ℕ
erase_node n [] = []
erase_node n (x ∷ r) = if x == n then r else x ∷ erase_node n r

-- removeSlaves: all instances on a node that has left.
unfoldable pub remove_slaves : Master → ℕ → Master
unfolding erase_node update_max_version
remove_slaves m node =
    if contains m.slaves node
    then update_max_version (record m {
      slaves = erase_node node m.slaves;
      slave_data = filter_by (λ s. not (s.node == node)) m.slave_data;
    })
    else m

unfoldable pub set_limit : SlaveData → ℕ → List SlaveData → List SlaveData
unfolding same_slave
set_limit s version [] = []
set_limit s version (t ∷ r) =
    if same_slave t s then record t { max_version = version } ∷ r else t ∷ set_limit s version r

-- _cmdMaxVersion: a slave reports the version up to which the master may commit.
unfoldable pub cmd_max_version : Master → ℕ → ℕ → ℕ → Master
unfolding has_slave set_limit update_max_version
cmd_max_version m node version slave_id =
    let s : SlaveData = record { node = node; max_version = u64_max; instance_id = slave_id } in
    if has_slave s m.slave_data
    then update_max_version (record m { slave_data = set_limit s version m.slave_data })
    else m

module _ (usort : List ℕ → List ℕ) where
  -- addSlave: the reply is sent before the slave is entered.
  unfoldable pub add_slave : Master → MapCommand → Master × List Message
  unfolding new_slave update_max_version add_slave_reply
  add_slave m c = (
    record (update_max_version (record m { slave_data = m.slave_data ++ new_slave m c ∷ [] })) {
      slaves = usort (m.slaves ++ c.node ∷ []);
    },
    add_slave_reply m c,
  )

  -- removeSlave: one instance; the node list is built again from what is left.
  unfoldable pub remove_slave : Master → ℕ → ℕ → Master
  unfolding has_slave erase_slave update_max_version
  remove_slave m node instance_id =
      let s : SlaveData = record {
        node = node;
        max_version = u64_max;
        instance_id = instance_id;
      } in
      if has_slave s m.slave_data
      then update_max_version (record m {
        slave_data = erase_slave s m.slave_data;
        slaves = usort (map (λ t. t.node) (erase_slave s m.slave_data));
      })
      else m
