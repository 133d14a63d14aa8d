-- ===== src/Rsp/Missing.antt =====
-- co/rspConnection.cpp: _handleAckRequest.
pub mod Asked
pub mod Steps
pub mod Covered
pub mod Bounds
use collage.Prelude.{
  ℕ, ◌+◌, ◌-◌, ◌%◌, Bool, true, false, not, ◌&&◌, ◌||◌, Option, none, some, List, [], ◌∷◌, ◌++◌,
  ltb, leb, ◌==◌, if◌then◌else◌, length,
}
use collage.Rsp.State.{
  Data, Nack, Datagram, ack, nack, Settings, Child, Listener, find_connection, u16_mod, u16_max,
  sub16,
}

-- CO_RSP_MAX_NACKS - 2
abbrev pub max_nacks : ℕ
max_nacks = 298

-- A nack that wraps around becomes two.
unfoldable pub split_nack : Nack → List Nack
split_nack n =
    if ltb n.last n.first
    then record { first = n.first; last = u16_max } ∷ record { first = 0; last = n.last } ∷ []
    else n ∷ []

-- The array nacks up to i, the start of nacks[ i ], and whether j is at the end of the deque.
pub record Scan : Type 0 where
  pub nacks : List Nack
  pub hole : Option ℕ
  pub at_end : Bool

module _ (expected : ℕ) where
  -- The loop at slot k, in the hole that starts at the given number, or after the last hole.
  unfoldable pub scan : ℕ → Option ℕ → List Nack → List (Option Data) → Scan
  scan k hole nacks [] = record { nacks = nacks; hole = hole; at_end = true }
  scan k none nacks (some d ∷ q) = scan (k + 1) none nacks q
  scan k none nacks (none ∷ q) = scan (k + 1) (some ((expected + (k + 1)) % u16_mod)) nacks q
  scan k (some s) nacks (o ∷ q) =
      let more : Scan = elim o [
        | none ↦ scan (k + 1) (some s) nacks q
        | some d ↦
            scan (k + 1) none
              (nacks ++ split_nack (record { first = s; last = (expected + k) % u16_mod })) q
      ] in
      if ltb (length nacks) max_nacks
      then more
      else record { nacks = nacks; hole = some s; at_end = false }

abbrev pub last_end : List Nack → ℕ
last_end [] = 0
last_end (n ∷ []) = n.last
last_end (n ∷ m ∷ ns) = last_end (m ∷ ns)

abbrev pub split_last : List Nack → List Nack
split_last [] = []
split_last (n ∷ []) = split_nack n
split_last (n ∷ m ∷ ns) = n ∷ split_last (m ∷ ns)

abbrev pub hole_first : Option ℕ → ℕ
hole_first none = 0
hole_first (some s) = s

-- The last nack, up to the packet of the request.
unfoldable pub close_scan : Settings → ℕ → Scan → List Nack
close_scan settings request r =
    if not r.at_end || (length r.nacks == 0)
    then r.nacks ++ record { first = hole_first r.hole; last = request } ∷ []
    else if ltb (sub16 request (last_end r.nacks)) settings.num_buffers
    then r.nacks ++ record { first = (last_end r.nacks + 1) % u16_mod; last = request } ∷ []
    else r.nacks

unfoldable pub missing : Settings → Child → ℕ → List Nack
missing settings c request =
    split_last (close_scan settings request (scan c.sequence 0 (some c.sequence) [] c.recv_buffers))

-- The test whether all packets up to the requested one have been received.
unfoldable pub has_all : Settings → ℕ → ℕ → Bool
has_all settings request got =
    (request == got)
    || (ltb request got && leb (got - request) settings.num_buffers)
    || (ltb got request && ltb settings.num_buffers (sub16 request got))

unfoldable pub answer : Settings → Child → ℕ → Datagram
answer settings c request =
    let got = sub16 c.sequence 1 in
    if has_all settings request got then ack c.id got else nack c.id (missing settings c request)

-- _handleAckRequest; none is its result false, for an unknown writer.
unfoldable pub handle_ack_request : Settings → Listener → ℕ → ℕ → Option Listener
handle_ack_request settings l writer_id request = elim (find_connection writer_id l.children) [
  | none ↦ none
  | some c ↦ some (record l { sent = l.sent ++ answer settings c request ∷ [] })
]
