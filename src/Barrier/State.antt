-- ===== src/Barrier/State.antt =====
-- co/barrier.cpp: the master's requests and the two command handlers. The default timeout, a global
-- setting, and lunchbox::usort are parameters.
use collage.Prelude.{
  ℕ, ◌+◌, ◌-◌, ◌%◌, Bool, true, false, not, ◌&&◌, Option, none, some, List, [], ◌∷◌, ◌++◌, ltb,
  ◌==◌, if◌then◌else◌, length, u32_mod, u64_mod,
}

-- A timeout in milliseconds, or one of the two special values.
pub data Timeout : Type 0 where
  indefinite standard : Timeout
  milliseconds : ℕ → Timeout

-- Request; `nodes` are in the order in which they entered.
pub record Request : Type 0 where
  pub time : ℕ
  pub timeout : Timeout
  pub incarnation : ℕ
  pub nodes : List ℕ

-- CMD_BARRIER_ENTER_REPLY, which unblocks a node for a version.
pub data Reply : Type 0 where
  enter_reply : ℕ → ℕ → Reply

-- The barrier on the node `local`; `entered` is enteredNodes, in iteration order.
pub record Barrier : Type 0 where
  pub local : ℕ
  pub version : ℕ
  pub height : ℕ
  pub incarnation : ℕ
  pub entered : List (ℕ × Request)
  pub sent : List Reply

-- CMD_BARRIER_ENTER, with its sender and the time at which it is handled.
pub record EnterCommand : Type 0 where
  pub version : ℕ
  pub incarnation : ℕ
  pub timeout : Timeout
  pub node : ℕ
  pub time : ℕ

abbrev pub is_indefinite : Timeout → Bool
is_indefinite indefinite = true
is_indefinite _ = false

-- Request::Request
unfoldable pub new_request : Request
new_request = record { time = 0; timeout = indefinite; incarnation = 0; nodes = [] }

unfoldable pub find_request : ℕ → List (ℕ × Request) → Option Request
find_request v [] = none
find_request v ((w, r) ∷ l) = if w == v then some r else find_request v l

unfoldable pub put_request : ℕ → Request → List (ℕ × Request) → List (ℕ × Request)
put_request v r [] = (v, r) ∷ []
put_request v r ((w, q) ∷ l) = if w == v then (w, r) ∷ l else (w, q) ∷ put_request v r l

unfoldable pub erase_request : ℕ → List (ℕ × Request) → List (ℕ × Request)
erase_request v [] = []
erase_request v ((w, q) ∷ l) = if w == v then l else (w, q) ∷ erase_request v l

-- _sendNotify
unfoldable pub send_notify : ℕ → Barrier → ℕ → Barrier
send_notify version b node =
    if node == b.local
    then if version == b.version
      then record b { incarnation = (b.incarnation + 1) % u32_mod }
      else b
    else record b { sent = b.sent ++ enter_reply node version ∷ [] }

unfoldable pub notify_all : ℕ → Barrier → List ℕ → Barrier
notify_all version b [] = b
notify_all version b (n ∷ ns) = notify_all version (send_notify version b n) ns

-- How a node joins the request of its version: the first one starts it, and one with a later timed
-- synchronization starts it anew. `none`: it belongs to an older one, and is unblocked at once.
unfoldable pub join : Request → EnterCommand → Option Request
join r c =
    let started : Request = record r {
      incarnation = c.incarnation;
      timeout = c.timeout;
      nodes = c.node ∷ [];
    } in
    let joined : Request = record r { nodes = r.nodes ++ c.node ∷ [] } in
    elim r.nodes [
      | [] ↦ some started
      | _ ∷ _ ↦
          if is_indefinite r.timeout
          then some joined
          else if ltb r.incarnation c.incarnation
          then none
          else if ltb c.incarnation r.incarnation
          then some started
          else some joined
    ]

-- The request that the command works on, with the time of its last command.
unfoldable pub request_for : Barrier → EnterCommand → Request
request_for b c = elim (find_request c.version b.entered) [
  | none ↦ record new_request { time = c.time }
  | some r ↦ record r { time = c.time }
]

module _ (default_timeout : ℕ) where
  unfoldable pub milliseconds_of : Timeout → ℕ
  milliseconds_of indefinite = 0
  milliseconds_of standard = default_timeout
  milliseconds_of (milliseconds n) = n

  unfoldable pub is_expired : ℕ → Request → Bool
  unfolding milliseconds_of
  is_expired time r =
      not (is_indefinite r.timeout) && ltb ((r.time + milliseconds_of r.timeout) % u64_mod) time

  -- The loop of _cleanup, which erases one request.
  unfoldable pub erase_expired : ℕ → List (ℕ × Request) → List (ℕ × Request)
  erase_expired time [] = []
  erase_expired time ((w, q) ∷ l) = if is_expired time q then l else (w, q) ∷ erase_expired time l

  -- _cleanup
  unfoldable pub cleanup : ℕ → List (ℕ × Request) → List (ℕ × Request)
  cleanup time l = if ltb (length l) 2 then l else erase_expired time l

module _ (usort : List ℕ → List ℕ) where
  -- The end of _cmdEnter, with the request of the command.
  unfoldable pub complete : Barrier → EnterCommand → Request → Barrier
  complete b c r =
      if ltb b.version c.version
      then b
      else if not (is_indefinite c.timeout) && ltb c.version b.version
      then send_notify c.version b c.node
      else if ltb (length r.nodes) b.height
      then b
      else let opened = notify_all c.version b (usort r.nodes) in
        record opened { entered = erase_request c.version opened.entered }

module _ (default_timeout : ℕ) (usort : List ℕ → List ℕ) where
  unfoldable pub enter_joined : Barrier → EnterCommand → Request → Barrier
  enter_joined b c r =
      let put = put_request c.version r b.entered in
      complete usort
        (record b {
          entered = if is_indefinite r.timeout then put else cleanup default_timeout r.time put;
        })
        c r

  -- _cmdEnter
  unfoldable pub cmd_enter : Barrier → EnterCommand → Barrier
  cmd_enter b c = elim (join (request_for b c) c) [
    | none ↦
        send_notify c.version
          (record b { entered = put_request c.version (request_for b c) b.entered }) c.node
    | some r ↦ enter_joined b c r
  ]

-- _cmdEnterReply
unfoldable pub cmd_enter_reply : Barrier → ℕ → Barrier
cmd_enter_reply b version =
    if version == b.version then record b { incarnation = (b.incarnation + 1) % u32_mod } else b

-- What enter sends to the master; _cmdEnter sees it with its sender and its own time.
pub record EnterMessage : Type 0 where
  pub version : ℕ
  pub incarnation : ℕ
  pub timeout : Timeout

abbrev pub received_from : ℕ → ℕ → EnterMessage → EnterCommand
received_from node time m = record {
  version = m.version;
  incarnation = m.incarnation;
  timeout = m.timeout;
  node = node;
  time = time;
}

-- enter up to its wait: it returns true at once, it returns false since the master cannot be
-- reached, or it sends its message and waits for an incarnation.
pub data Entered : Type 0 where
  passed unreachable : Entered
  waits : EnterMessage → ℕ → Entered

unfoldable pub enter : Barrier → Bool → Timeout → Entered
enter b is_reachable timeout =
    let leave_val = (b.incarnation + 1) % u32_mod in
    if b.height == 1
    then passed
    else if not is_reachable
    then unreachable
    else waits
        (record {
          version = b.version;
          incarnation = (leave_val + u32_mod - 1) % u32_mod;
          timeout = timeout;
        })
        leave_val

-- The condition of the wait.
abbrev pub has_left : Barrier → ℕ → Bool
has_left b leave_val = b.incarnation == leave_val
