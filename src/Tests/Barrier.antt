-- ===== src/Tests/Barrier.antt =====
-- A barrier of height 3 on node 20.
use collage.Prelude.{
  ℕ, ◌+◌, ◌<◌, ◌≡◌, refl, true, false, none, some, List, [], ◌∷◌, ◌++◌, arith, u64_mod,
}
use collage.Barrier.State.{
  indefinite, milliseconds, Request, enter_reply, Barrier, EnterCommand, find_request, put_request,
  milliseconds_of, cleanup,
}
use collage.Barrier.State.{
  EnterMessage, received_from, passed, unreachable, waits, enter, cmd_enter_reply, has_left,
}
use collage.Barrier.Leaving.{is_sent, waiting_node_leaves}
use collage.Barrier.Requests.{find-cleanup}
use collage.Barrier.Entering.{IsPlain, enter_all}
use collage.Barrier.Opening.{enter_all-holds, enter_all-opens}

abbrev barrier : Barrier
barrier = record { local = 20; version = 4; height = 3; incarnation = 1; entered = []; sent = [] }

abbrev enters : ℕ → EnterCommand
enters node = record { version = 4; incarnation = 1; timeout = indefinite; node = node; time = 50 }

abbrev first_two : List EnterCommand
first_two = enters 30 ∷ enters 20 ∷ []

enters-IsPlain : (node : ℕ) → IsPlain 4 (enters node)
enters-IsPlain node = record { same = refl; waits = refl }

nothing-entered : find_request 4 [] ≡ none
unfolding find_request
nothing-entered = refl

-- A parameter of the model: a list that is sorted already.
abbrev same_order : List ℕ → List ℕ
same_order l = l

enter_all-holds_example :
    ((enter_all 300000 same_order barrier first_two).sent ≡ [])
    × ((enter_all 300000 same_order barrier first_two).incarnation ≡ 1)
enter_all-holds_example =
    enter_all-holds 300000 same_order barrier first_two nothing-entered
      (enters-IsPlain 30, (enters-IsPlain 20, tt)) (omega arith)

enter_all-opens_example :
    let u = enter_all 300000 same_order barrier (first_two ++ enters 40 ∷ []) in
    (u.sent ≡ enter_reply 30 4 ∷ enter_reply 40 4 ∷ []) × (u.incarnation ≡ 2) × (u.entered ≡ [])
enter_all-opens_example =
    enter_all-opens 300000 same_order barrier first_two (enters 40) nothing-entered
      (enters-IsPlain 30, (enters-IsPlain 20, tt)) (enters-IsPlain 40) refl (omega arith)

abbrev timed : Request
timed = record { time = 900; timeout = milliseconds 100; incarnation = 0; nodes = 30 ∷ [] }

abbrev old : Request
old = record { time = 100; timeout = milliseconds 100; incarnation = 0; nodes = 40 ∷ [] }

timed-fits : timed.time + milliseconds_of 300000 timed.timeout < u64_mod
unfolding milliseconds_of
timed-fits = omega arith

find-cleanup_example :
    find_request 4 (cleanup 300000 900 (put_request 4 timed ((3, old) ∷ []))) ≡ some timed
find-cleanup_example = find-cleanup 300000 4 timed ((3, old) ∷ []) timed-fits

-- Node 30 enters first; the master's own user and node 40 follow.
abbrev waiting : Barrier
waiting = record barrier { local = 30; incarnation = 6 }

waiting_node_leaves_example :
    (message : EnterMessage) × (leave_val : ℕ) × (enter waiting true indefinite
      ≡ waits message leave_val)
    × (has_left waiting leave_val ≡ false)
    × (is_sent 30 4
          (enter_all 300000 same_order barrier
            (received_from 30 50 message ∷ enters 20 ∷ enters 40 ∷ [])).sent
        ≡ true)
    × (has_left (cmd_enter_reply waiting 4) leave_val ≡ true)
    × (has_left (cmd_enter_reply waiting 3) leave_val ≡ false)
waiting_node_leaves_example =
    waiting_node_leaves 300000 same_order barrier waiting [] (enters 20 ∷ []) (enters 40) 50 3 refl
      refl (λ e. omega (arith, e)) (omega arith) nothing-entered tt (enters-IsPlain 20, tt)
      (enters-IsPlain 40) refl (omega arith) (λ ns x. refl) (λ e. omega (arith, e))

alone : enter (record barrier { height = 1 }) false indefinite ≡ passed
unfolding enter
alone = refl

no_master : enter barrier false indefinite ≡ unreachable
unfolding enter
no_master = refl
