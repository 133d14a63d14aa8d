-- ===== src/Barrier/Leaving.antt =====
-- co/barrier.cpp: a node that waits in a barrier until its master opens it.
use collage.Prelude.{
  ℕ, ◌+◌, ◌-◌, ◌%◌, ◌<◌, ◌≡◌, refl, ap, ◌∙◌, ◌≢◌, ◌&&◌, Bool, true, false, ◌||◌, none, List, [],
  ◌∷◌, ◌++◌, map, arith, ◌==◌, if_true, if_false, length, length-append, All, All-append, contains,
  u32_mod,
}
use collage.Barrier.State.{
  indefinite, Reply, enter_reply, Barrier, EnterCommand, EnterMessage, received_from, waits,
  find_request, enter, cmd_enter_reply, has_left,
}
use collage.Barrier.Entering.{IsPlain, enter_all}
use collage.Barrier.Notified.{remote}
use collage.Barrier.Opening.{enter_all-opens}

-- A reply to this node for this version is among those that are sent.
abbrev pub is_sent : ℕ → ℕ → List Reply → Bool
is_sent node version [] = false
is_sent node version (enter_reply n v ∷ l) = (n == node) && (v == version) || is_sent node version l

is_sent-append :
    (node v : ℕ) (xs ys : List Reply) → is_sent node v ys ≡ true → is_sent node v (xs ++ ys) ≡ true
is_sent-append node v [] ys h = h
is_sent-append node v (enter_reply n w ∷ xs) ys h = ground (arith, is_sent-append node v xs ys h)

is_sent-map :
    (node v : ℕ) (ns : List ℕ)
    → contains ns node ≡ true
    → is_sent node v (map (λ n. enter_reply n v) ns) ≡ true
is_sent-map node v [] h = absurd (ground arith)
is_sent-map node v (n ∷ ns) h = ground (arith, is_sent-map node v ns, h)

contains-remote :
    (b : Barrier) (node : ℕ) (ns : List ℕ)
    → node ≢ b.local
    → contains ns node ≡ true
    → contains (remote b ns) node ≡ true
contains-remote b node [] h k = k
contains-remote b node (n ∷ ns) h k = ground (arith, contains-remote b node ns h, h, k)

contains-nodes :
    (before after : List EnterCommand) (c : EnterCommand)
    → contains (map (λ d. d.node) (before ++ c ∷ after)) c.node ≡ true
contains-nodes [] after c = ground arith
contains-nodes (d ∷ before) after c = ground (arith, contains-nodes before after c)

contains-before : (xs ys : List ℕ) (x : ℕ) → contains xs x ≡ true → contains (xs ++ ys) x ≡ true
contains-before [] ys x h = absurd (ground arith)
contains-before (y ∷ xs) ys x h = ground (arith, contains-before xs ys x, h)

-- What a node without a timeout sends, and what it waits for.
abbrev pub message_of : Barrier → EnterMessage
message_of n = record {
  version = n.version;
  incarnation = ((n.incarnation + 1) % u32_mod + u32_mod - 1) % u32_mod;
  timeout = indefinite;
}

enter-waits :
    (n : Barrier)
    → n.height ≢ 1
    → enter n true indefinite ≡ waits (message_of n) ((n.incarnation + 1) % u32_mod)
unfolding enter
enter-waits n h = if_false {b = n.height == 1} _ _ (ground (arith, h))

reply-leaves :
    (n : Barrier) → has_left (cmd_enter_reply n n.version) ((n.incarnation + 1) % u32_mod) ≡ true
unfolding cmd_enter_reply
reply-leaves n =
    ap (λ b. has_left b ((n.incarnation + 1) % u32_mod))
      (if_true {b = n.version == n.version} _ _ (ground arith))
    ∙ ground arith

other_reply-stays :
    (n : Barrier) (version : ℕ) → version ≢ n.version → cmd_enter_reply n version ≡ n
unfolding cmd_enter_reply
other_reply-stays n version h = if_false {b = version == n.version} _ _ (ground (arith, h))

module _ (default_timeout : ℕ) (usort : List ℕ → List ℕ) where
  opening_replies :
      (b : Barrier) (before after : List EnterCommand) (mine c : EnterCommand)
      → find_request b.version b.entered ≡ none
      → All (IsPlain b.version) (before ++ mine ∷ after)
      → IsPlain b.version c
      → length before + length after + 2 ≡ b.height
      → b.incarnation < u32_mod
      → ((ns : List ℕ) (x : ℕ) → contains (usort ns) x ≡ contains ns x)
      → mine.node ≢ b.local
      → is_sent mine.node b.version
          (enter_all default_timeout usort b ((before ++ mine ∷ after) ++ c ∷ [])).sent
        ≡ true
  opening_replies b before after mine c h ps p full k keeps away =
      let cs = before ++ mine ∷ after in
      let nodes = map (λ d. d.node) cs ++ c.node ∷ [] in
      let opened =
        enter_all-opens default_timeout usort b cs c h ps p
          (omega (arith, length-append before (mine ∷ after))) k in
      let present : contains (usort nodes) mine.node ≡ true =
        keeps nodes mine.node
        ∙ contains-before (map (λ d. d.node) cs) (c.node ∷ []) mine.node
            (contains-nodes before after mine) in
      ap (is_sent mine.node b.version) opened.0
      ∙ is_sent-append mine.node b.version b.sent _ (
          is_sent-map mine.node b.version (remote b (usort nodes))
            (contains-remote b mine.node (usort nodes) away present))

  -- A node that enters a barrier of height 2 or more whose master is reachable, another node with
  -- the same version and height and incarnations of 32 bits, without a timeout, sends a message and
  -- waits. When the master has handled this message and those of as many other nodes as the height
  -- asks for, the last of them another node's, all without a timeout and for the current version,
  -- for which nobody has entered before, it has sent the node a reply for that version. This reply
  -- ends the wait; one for another version does not. usort must keep the nodes.
  pub waiting_node_leaves :
      (b n : Barrier) (before after : List EnterCommand) (c : EnterCommand) (time other : ℕ)
      → n.version ≡ b.version
      → n.height ≡ b.height
      → n.local ≢ b.local
      → n.incarnation < u32_mod
      → find_request b.version b.entered ≡ none
      → All (IsPlain b.version) before
      → All (IsPlain b.version) after
      → IsPlain b.version c
      → length before + length after + 2 ≡ b.height
      → b.incarnation < u32_mod
      → ((ns : List ℕ) (x : ℕ) → contains (usort ns) x ≡ contains ns x)
      → other ≢ n.version
      → (message : EnterMessage) × (leave_val : ℕ) × (enter n true indefinite
          ≡ waits message leave_val)
        × (has_left n leave_val ≡ false)
        × (is_sent n.local n.version
              (enter_all default_timeout usort b
                ((before ++ received_from n.local time message ∷ after) ++ c ∷ [])).sent
            ≡ true)
        × (has_left (cmd_enter_reply n n.version) leave_val ≡ true)
        × (has_left (cmd_enter_reply n other) leave_val ≡ false)
  waiting_node_leaves b n before after c time other version height away small h ps qs p full k keeps
        ne =
      let mine = received_from n.local time (message_of n) in
      let plain : IsPlain b.version mine = record { same = version; waits = refl } in
      let still : has_left n ((n.incarnation + 1) % u32_mod) ≡ false = ground (arith, small) in
      (
        message_of n,
        (n.incarnation + 1) % u32_mod,
        enter-waits n (λ e. absurd (omega (arith, e, height, full))),
        still,
        ap
              (λ v.
                is_sent n.local v
                  (enter_all default_timeout usort b ((before ++ mine ∷ after) ++ c ∷ [])).sent)
              version
            ∙ opening_replies b before after mine c h
                (All-append (IsPlain b.version) before (mine ∷ after) ps (plain, qs)) p full k keeps
                away,
        reply-leaves n,
        ap (λ x. has_left x ((n.incarnation + 1) % u32_mod)) (other_reply-stays n other ne) ∙ still,
      )
