-- ===== src/Barrier/Entering.antt =====
-- co/barrier.cpp: one command without a timeout for the current version of a barrier.
use collage.Prelude.{
  ℕ, ◌≤◌, ◌<◌, ◌≡◌, refl, ap, ◌∙◌, true, false, none, some, List, [], ◌∷◌, ◌++◌, arith, ltb,
  if_true, lt→ltb, length,
}
use collage.Barrier.State.{
  indefinite, Request, Barrier, EnterCommand, is_indefinite, new_request, find_request, put_request,
  erase_request, notify_all, join, complete, enter_joined, request_for, cmd_enter,
}

-- A command for the version of the barrier, without a timeout.
pub record IsPlain (version : ℕ) (c : EnterCommand) : Type 0 where
  pub same : c.version ≡ version
  pub waits : c.timeout ≡ indefinite

-- The request that plain commands of the given nodes have made.
abbrev pub Holds : Barrier → List ℕ → Type 0
Holds b [] = find_request b.version b.entered ≡ none
Holds b (n ∷ ns) =
    (r : Request) × (find_request b.version b.entered ≡ some r)
    × (r.nodes ≡ n ∷ ns)
    × (r.timeout ≡ indefinite)

-- The request after one more plain command.
pub record IsJoined (c : EnterCommand) (ns : List ℕ) (r : Request) : Type 0 where
  pub nodes : r.nodes ≡ ns ++ c.node ∷ []
  pub timeout : r.timeout ≡ indefinite

request_for-missing :
    (b : Barrier) (c : EnterCommand)
    → find_request c.version b.entered ≡ none
    → request_for b c ≡ record new_request { time = c.time }
unfolding request_for
request_for-missing b c h = rw (h, request_for)

request_for-found :
    (b : Barrier) (c : EnterCommand) (r : Request)
    → find_request c.version b.entered ≡ some r
    → request_for b c ≡ record r { time = c.time }
unfolding request_for
request_for-found b c r h = rw (h, request_for)

join-first :
    (r : Request) (c : EnterCommand)
    → r.nodes ≡ []
    → c.timeout ≡ indefinite
    → (s : Request) × (join r c ≡ some s) × IsJoined c [] s
unfolding join
join-first r c h t = (
  record r { incarnation = c.incarnation; timeout = c.timeout; nodes = c.node ∷ [] },
  rw (h, join),
  record { nodes = refl; timeout = t },
)

join-next :
    (r : Request) (c : EnterCommand) (n : ℕ) (ns : List ℕ)
    → r.nodes ≡ n ∷ ns
    → r.timeout ≡ indefinite
    → (s : Request) × (join r c ≡ some s) × IsJoined c (n ∷ ns) s
unfolding join
join-next r c n ns h t = (
  record r { nodes = n ∷ ns ++ c.node ∷ [] },
  rw (h, join)
      (if_true {b = is_indefinite r.timeout} _ _ (ap is_indefinite t)
        ∙ ap (λ l. some (record r { nodes = l ++ c.node ∷ [] })) h),
  record { nodes = refl; timeout = t },
)

pub joined :
    (b : Barrier) (c : EnterCommand) (ns : List ℕ)
    → IsPlain b.version c
    → Holds b ns
    → (s : Request) × (join (request_for b c) c ≡ some s) × IsJoined c ns s
unfolding new_request
joined b c [] p h =
    let start = request_for-missing b c (ap (λ v. find_request v b.entered) p.same ∙ h) in
    let (s, run, facts) = join-first (record new_request { time = c.time }) c refl p.waits in
    (s, ap (λ r. join r c) start ∙ run, facts)
joined b c (n ∷ ns) p (r, found, nodes, timeout) =
    let start = request_for-found b c r (ap (λ v. find_request v b.entered) p.same ∙ found) in
    let (s, run, facts) = join-next (record r { time = c.time }) c n ns nodes timeout in
    (s, ap (λ q. join q c) start ∙ run, facts)

module _ (default_timeout : ℕ) (usort : List ℕ → List ℕ) where
  abbrev pub enter_all : Barrier → List EnterCommand → Barrier
  enter_all b [] = b
  enter_all b (c ∷ cs) = enter_all (cmd_enter default_timeout usort b c) cs

  pub cmd_enter-joined :
      (b : Barrier) (c : EnterCommand) (s : Request)
      → c.version ≡ b.version
      → join (request_for b c) c ≡ some s
      → s.timeout ≡ indefinite
      → cmd_enter default_timeout usort b c
        ≡ complete usort (record b { entered = put_request b.version s b.entered }) c s
  unfolding cmd_enter enter_joined
  cmd_enter-joined b c s e run t =
      rw (run, cmd_enter)
        (ap (λ l. complete usort (record b { entered = l }) c s)
          (if_true {b = is_indefinite s.timeout} _ _ (ap is_indefinite t)
            ∙ ap (λ v. put_request v s b.entered) e))

  pub complete-waits :
      (b : Barrier) (c : EnterCommand) (s : Request)
      → IsPlain b.version c
      → length s.nodes < b.height
      → complete usort b c s ≡ b
  unfolding complete
  complete-waits b c s p h =
      let now : ltb b.version c.version ≡ false = ground (arith, p.same) in
      let few : ltb (length s.nodes) b.height ≡ true = lt→ltb _ _ h in
      rw (now, few, p.waits) (ground arith)

  pub complete-opens :
      (b : Barrier) (c : EnterCommand) (s : Request)
      → IsPlain b.version c
      → b.height ≤ length s.nodes
      → complete usort b c s
        ≡ let opened = notify_all b.version b (usort s.nodes) in
          record opened { entered = erase_request b.version opened.entered }
  unfolding complete
  complete-opens b c s p h =
      let now : ltb b.version c.version ≡ false = ground (arith, p.same) in
      let all : ltb (length s.nodes) b.height ≡ false = ground arith in
      rw (now, all, p.waits, p.same) refl
