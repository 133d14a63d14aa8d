-- ===== src/Rsp/Members.antt =====
-- co/rspConnection.cpp: how the members of the group learn of each other: _handleAcceptIDData,
-- _handleInitData, _checkNewID, _addConnection and _removeConnection. The new identifier that
-- _buildNewID draws at random is a parameter. What tells the application of a new connection, or of
-- the end of one, is left out.
pub mod Distinct
use collage.Prelude.{
  ℕ, Bool, true, false, ◌||◌, Option, none, some, List, [], ◌∷◌, ◌++◌, ◌==◌, if◌then◌else◌, length,
}
use collage.Rsp.State.{
  hello, hello_reply, deny, count_node, Settings, Child, Listener, find_connection, u16_max,
}

-- The types of a DatagramNode.
pub data NodeType : Type 0 where
  id_hello id_hello_reply id_deny id_confirm id_exit node_count : NodeType

abbrev pub is_found : Option Child → Bool
is_found none = false
is_found (some c) = true

unfoldable pub send_count_node : Listener → Listener
send_count_node l =
    if is_found (find_connection l.id l.children)
    then record l { sent = l.sent ++ count_node l.id (length l.children) ∷ [] }
    else l

-- The connection that _addConnection makes.
abbrev pub new_connection : Settings → ℕ → ℕ → Child
new_connection settings id sequence = record {
  id = id;
  sequence = sequence;
  acked = u16_max;
  recv_buffers = [];
  app_buffers = [];
  free_buffers = settings.num_buffers;
  event = false;
}

unfoldable pub add_connection : Settings → ℕ → ℕ → Listener → Listener
add_connection settings id sequence l =
    if is_found (find_connection id l.children)
    then l
    else send_count_node
        (record l { children = l.children ++ new_connection settings id sequence ∷ [] })

abbrev pub erase_connection : ℕ → List Child → List Child
erase_connection id [] = []
erase_connection id (c ∷ cs) = if c.id == id then cs else c ∷ erase_connection id cs

unfoldable pub remove_connection : ℕ → Listener → Listener
remove_connection id l =
    if id == l.id
    then l
    else send_count_node (record l { children = erase_connection id l.children })

unfoldable pub check_new_id : ℕ → Listener → Listener
check_new_id id l =
    if (id == l.id) || is_found (find_connection id l.children)
    then record l { sent = l.sent ++ deny l.id l.sequence ∷ [] }
    else record l { sent = l.sent ++ hello_reply l.id l.sequence ∷ [] }

-- A denial of the own identifier: another one is announced.
unfoldable pub take_new_id : ℕ → ℕ → Listener → Listener
take_new_id denied new_id l =
    if denied == l.id
    then record l { id = new_id; timeouts = 0; sent = l.sent ++ hello new_id l.sequence ∷ [] }
    else l

-- _handleAcceptIDData, while the own identifier is not accepted. The fields of the DatagramNode are
-- its type, its connectionID and its data.
unfoldable handle_accept_id_data : Settings → ℕ → NodeType → ℕ → ℕ → Listener → Listener
handle_accept_id_data settings new_id id_hello id sequence l = check_new_id id l
handle_accept_id_data settings new_id id_hello_reply id sequence l =
    add_connection settings id sequence l
handle_accept_id_data settings new_id id_deny id sequence l = take_new_id id new_id l
handle_accept_id_data settings new_id id_exit id sequence l = remove_connection id l
handle_accept_id_data settings new_id _ id sequence l = l

abbrev pub reset_timeouts : Bool → Listener → Listener
reset_timeouts connected l = if connected then l else record l { timeouts = 0 }

-- _handleInitData
unfoldable pub handle_init_data : Settings → Bool → NodeType → ℕ → ℕ → Listener → Listener
handle_init_data settings connected id_hello id sequence l =
    check_new_id id (reset_timeouts connected l)
handle_init_data settings connected id_confirm id sequence l =
    add_connection settings id sequence (reset_timeouts connected l)
handle_init_data settings connected node_count id sequence l = l
handle_init_data settings connected id_hello_reply id sequence l =
    add_connection settings id sequence l
handle_init_data settings connected id_exit id sequence l = remove_connection id l
handle_init_data settings connected id_deny id sequence l = l
