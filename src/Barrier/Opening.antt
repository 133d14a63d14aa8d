-- ===== src/Barrier/Opening.antt =====
-- co/barrier.cpp: the height of a barrier, and when its nodes are unblocked.
use collage.Prelude.{
  ℕ, ◌+◌, ◌%◌, ◌<◌, ◌≡◌, refl, sym, ap, ◌∙◌, subst, none, some, List, [], ◌∷◌, ◌++◌, map,
  append_assoc, append-nil, arith, length, length-append, length-map, All, u32_mod,
}
use collage.Barrier.State.{
  indefinite, Request, enter_reply, Barrier, EnterCommand, find_request, put_request, erase_request,
  notify_all, cmd_enter,
}
use collage.Barrier.Requests.{find-put_request, put-put_request, erase-put_request}
use collage.Barrier.Entering.{
  IsPlain, Holds, IsJoined, joined, enter_all, cmd_enter-joined, complete-waits, complete-opens,
}
use collage.Barrier.Notified.{remote, local_users, IsNotified, notify_all-IsNotified}

-- The barrier has changed only in that these nodes have entered the current version.
record IsWaiting (b t : Barrier) (ns : List ℕ) : Type 0 where
  version : t.version ≡ b.version
  local : t.local ≡ b.local
  height : t.height ≡ b.height
  sent : t.sent ≡ b.sent
  incarnation : t.incarnation ≡ b.incarnation
  holds : Holds t ns
  others : (s : Request) → erase_request t.version (put_request t.version s t.entered) ≡ b.entered

Holds-snoc :
    (t : Barrier) (s : Request) (ns : List ℕ) (n : ℕ)
    → find_request t.version t.entered ≡ some s
    → s.nodes ≡ ns ++ n ∷ []
    → s.timeout ≡ indefinite
    → Holds t (ns ++ n ∷ [])
Holds-snoc t s [] n f e w = (s, f, e, w)
Holds-snoc t s (m ∷ ns) n f e w = (s, f, e, w)

length-snoc : (ns : List ℕ) (n : ℕ) → length (ns ++ n ∷ []) ≡ length ns + 1
length-snoc ns n = length-append ns (n ∷ []) ∙ omega arith

told_fields :
    (b t x : Barrier) (e : List (ℕ × Request)) (ns all : List ℕ)
    → IsWaiting b t ns
    → IsNotified (record t { entered = e }) x all
    → (x.sent ≡ b.sent ++ map (λ n. enter_reply n b.version) (remote b all))
      × (x.incarnation ≡ (b.incarnation + length (local_users b all)) % u32_mod)
told_fields b t x e ns all w told = (
  rw (← w.version, ← w.local, ← w.sent) told.sent,
  rw (← w.local, ← w.incarnation) told.incarnation,
)

module _ (default_timeout : ℕ) (usort : List ℕ → List ℕ) where
  IsWaiting-start : (b : Barrier) → find_request b.version b.entered ≡ none → IsWaiting b b []
  IsWaiting-start b h = record {
    version = refl;
    local = refl;
    height = refl;
    sent = refl;
    incarnation = refl;
    holds = h;
    others = λ s. erase-put_request b.version s b.entered h;
  }

  entered_more :
      (b t : Barrier) (ns : List ℕ) (c : EnterCommand) (s : Request)
      → IsWaiting b t ns
      → IsJoined c ns s
      → IsWaiting b (record t { entered = put_request t.version s t.entered }) (ns ++ c.node ∷ [])
  entered_more b t ns c s w k = record {
    version = w.version;
    local = w.local;
    height = w.height;
    sent = w.sent;
    incarnation = w.incarnation;
    holds =
        Holds-snoc (record t { entered = put_request t.version s t.entered }) s ns c.node
          (find-put_request t.version s t.entered) k.nodes k.timeout;
    others =
        λ q. ap (erase_request t.version) (put-put_request t.version s q t.entered) ∙ w.others q;
  }

  IsWaiting-step :
      (b t : Barrier) (ns : List ℕ) (c : EnterCommand)
      → IsWaiting b t ns
      → IsPlain b.version c
      → length ns + 1 < b.height
      → IsWaiting b (cmd_enter default_timeout usort t c) (ns ++ c.node ∷ [])
  IsWaiting-step b t ns c w p h =
      let q : IsPlain t.version c = record { same = p.same ∙ sym w.version; waits = p.waits } in
      let (s, run, k) = joined t c ns q w.holds in
      let now : Barrier = record t { entered = put_request t.version s t.entered } in
      subst (λ x. IsWaiting b x (ns ++ c.node ∷ []))
        (sym (
          cmd_enter-joined default_timeout usort t c s q.same run k.timeout
          ∙ complete-waits default_timeout usort now c s q
              (omega (arith, ap length k.nodes, length-snoc ns c.node, w.height))))
        (entered_more b t ns c s w k)

  enter_all-IsWaiting :
      (b t : Barrier) (ns : List ℕ) (cs : List EnterCommand)
      → IsWaiting b t ns
      → All (IsPlain b.version) cs
      → length ns + length cs < b.height
      → IsWaiting b (enter_all default_timeout usort t cs) (ns ++ map (λ c. c.node) cs)
  enter_all-IsWaiting b t ns [] w p h = rw (append-nil ns) w
  enter_all-IsWaiting b t ns (c ∷ cs) w p h =
      subst (IsWaiting b (enter_all default_timeout usort (cmd_enter default_timeout usort t c) cs))
        (append_assoc ns (c.node ∷ []) (map (λ d. d.node) cs))
        (enter_all-IsWaiting b (cmd_enter default_timeout usort t c) (ns ++ c.node ∷ []) cs
          (IsWaiting-step b t ns c w p.0 (omega arith)) p.1 (omega (arith, length-snoc ns c.node)))

  -- While fewer nodes than the height of the barrier have entered its version, without timeouts,
  -- nobody is unblocked: nothing is sent, and the incarnation, on which local users wait, stays.
  pub enter_all-holds :
      (b : Barrier) (cs : List EnterCommand)
      → find_request b.version b.entered ≡ none
      → All (IsPlain b.version) cs
      → length cs < b.height
      → ((enter_all default_timeout usort b cs).sent ≡ b.sent)
        × ((enter_all default_timeout usort b cs).incarnation ≡ b.incarnation)
  enter_all-holds b cs h p few =
      let w = enter_all-IsWaiting b b [] cs (IsWaiting-start b h) p (omega arith) in
      (w.sent, w.incarnation)

  enter_all-snoc :
      (b : Barrier) (cs : List EnterCommand) (c : EnterCommand)
      → enter_all default_timeout usort b (cs ++ c ∷ [])
        ≡ cmd_enter default_timeout usort (enter_all default_timeout usort b cs) c
  enter_all-snoc b [] c = refl
  enter_all-snoc b (d ∷ cs) c = enter_all-snoc (cmd_enter default_timeout usort b d) cs c

  last_enters :
      (b t : Barrier) (ns : List ℕ) (c : EnterCommand)
      → IsWaiting b t ns
      → IsPlain b.version c
      → length ns + 1 ≡ b.height
      → b.incarnation < u32_mod
      → let u = cmd_enter default_timeout usort t c in
        let all = usort (ns ++ c.node ∷ []) in
        (u.sent ≡ b.sent ++ map (λ n. enter_reply n b.version) (remote b all))
        × (u.incarnation ≡ (b.incarnation + length (local_users b all)) % u32_mod)
        × (u.entered ≡ b.entered)
  last_enters b t ns c w p h k =
      let q : IsPlain t.version c = record { same = p.same ∙ sym w.version; waits = p.waits } in
      let (s, run, j) = joined t c ns q w.holds in
      let now : Barrier = record t { entered = put_request t.version s t.entered } in
      let told = notify_all-IsNotified now (usort s.nodes) (omega (arith, w.incarnation)) in
      let fields =
        told_fields b t (notify_all t.version now (usort s.nodes)) now.entered ns (usort s.nodes) w
          told in
      let done =
        cmd_enter-joined default_timeout usort t c s q.same run j.timeout
        ∙ complete-opens default_timeout usort now c s q
            (omega (arith, ap length j.nodes, length-snoc ns c.node, w.height)) in
      (
        ap (λ x. x.sent) done
            ∙ fields.0
            ∙ ap (λ l. b.sent ++ map (λ n. enter_reply n b.version) (remote b (usort l))) j.nodes,
        ap (λ x. x.incarnation) done
            ∙ fields.1
            ∙ ap (λ l. (b.incarnation + length (local_users b (usort l))) % u32_mod) j.nodes,
        ap (λ x. x.entered) done ∙ ap (erase_request t.version) told.entered ∙ w.others s,
      )

  -- The node that completes the height of the barrier, without timeouts, opens it: all that have
  -- entered are unblocked, each once as usort says, other nodes by a reply for this version and
  -- users here by a step of the incarnation; the request is gone, and the barrier as before.
  pub enter_all-opens :
      (b : Barrier) (cs : List EnterCommand) (c : EnterCommand)
      → find_request b.version b.entered ≡ none
      → All (IsPlain b.version) cs
      → IsPlain b.version c
      → length cs + 1 ≡ b.height
      → b.incarnation < u32_mod
      → let u = enter_all default_timeout usort b (cs ++ c ∷ []) in
        let all = usort (map (λ d. d.node) cs ++ c.node ∷ []) in
        (u.sent ≡ b.sent ++ map (λ n. enter_reply n b.version) (remote b all))
        × (u.incarnation ≡ (b.incarnation + length (local_users b all)) % u32_mod)
        × (u.entered ≡ b.entered)
  enter_all-opens b cs c h ps p full k =
      let w = enter_all-IsWaiting b b [] cs (IsWaiting-start b h) ps (omega arith) in
      rw (enter_all-snoc b cs c) (
        last_enters b (enter_all default_timeout usort b cs) (map (λ d. d.node) cs) c w p
          (omega (arith, length-map cs (λ d. d.node))) k)
