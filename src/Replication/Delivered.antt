-- ===== src/Replication/Delivered.antt =====
-- co/fullMasterCM.cpp with co/versionedSlaveCM.cpp: commits, their delivery and a sync.
use collage.Prelude.{
  ℕ, suc, ◌+◌, ◌<◌, ◌≡◌, refl, sym, ap, ◌∙◌, inl, inr, true, Option, none, some, List, [], ◌∷◌,
  ◌++◌, append-nil, arith, if_true, length, length-append, contains,
}
use mathlib.Core.Bool.{false≢true}
use collage.Master.State.{Master, Message, instance_commit, version_newest, version_head}
use collage.Master.Full.{commit, obsolete, commit_data}
use collage.Master.Full.Invariant.{Advances, commit-cases}
use collage.Master.Full.Commit.{commit_publishes, update_commit_count_fields}
use collage.Slave.Versions.{VersionStream, has_instance_data, stream_payload}
use collage.Slave.Manager.{Object, Slave, sync, apply_stream, get_head_version}
use collage.Slave.Manager.Sync.{
  Consecutive, back_version-Consecutive, apply_all, sync_head-IsSyncedTo,
}
use collage.Slave.Manager.Queue.{cmd_data_all-version}
use collage.Replication.{commit_command, deliver, Run, start, commits}

-- The complete stream of a commit, and those of commits from a version on.
abbrev stream_of : ℕ → List ℕ → VersionStream
stream_of version payload = record {
  commands = commit_command version payload ∷ [];
  version = version;
}

abbrev streams_from : ℕ → List (List ℕ) → List VersionStream
streams_from v [] = []
streams_from v (p ∷ ps) = stream_of (v + 1) p ∷ streams_from (v + 1) ps

streams_from-snoc :
    (v : ℕ) (ps : List (List ℕ)) (p : List ℕ)
    → streams_from v (ps ++ p ∷ []) ≡ streams_from v ps ++ stream_of (v + length ps + 1) p ∷ []
streams_from-snoc v [] p = ap (λ w. stream_of w p ∷ []) (omega arith)
streams_from-snoc v (q ∷ ps) p = ap (◌∷◌ (stream_of (v + 1) q)) (
    streams_from-snoc (v + 1) ps p
    ∙ ap (λ w. streams_from (v + 1) ps ++ stream_of w p ∷ []) (omega arith))

streams_from-Consecutive : (v : ℕ) (ps : List (List ℕ)) → Consecutive (v + 1) (streams_from v ps)
streams_from-Consecutive v [] = tt
streams_from-Consecutive v (p ∷ ps) = (refl, streams_from-Consecutive (v + 1) ps)

length-streams_from : (v : ℕ) (ps : List (List ℕ)) → length (streams_from v ps) ≡ length ps
length-streams_from v [] = refl
length-streams_from v (p ∷ ps) = ap suc (length-streams_from (v + 1) ps)

-- An object to which full instances are applied one after the other.
abbrev pub apply_payloads : {S : Type 0} → Object S → S → List (List ℕ) → S
apply_payloads o x [] = x
apply_payloads o x (p ∷ ps) = apply_payloads o (o.apply_instance_data x p) ps

module _ {S : Type 0} (o : Object S) where
  apply_stream_of :
      (x : S) (v : ℕ) (p : List ℕ) → apply_stream o x (stream_of v p) ≡ o.apply_instance_data x p
  unfolding apply_stream has_instance_data stream_payload
  apply_stream_of x v p = ap (o.apply_instance_data x) (append-nil p)

  apply_all-streams_from :
      (x : S) (v : ℕ) (ps : List (List ℕ))
      → apply_all o x (streams_from v ps) ≡ apply_payloads o x ps
  apply_all-streams_from x v [] = refl
  apply_all-streams_from x v (p ∷ ps) =
      ap (λ y. apply_all o y (streams_from (v + 1) ps)) (apply_stream_of x (v + 1) p)
      ∙ apply_all-streams_from (o.apply_instance_data x p) (v + 1) ps

-- The slave has all commits in its queue.
record IsReplica {S : Type 0} (node : ℕ) (s : Slave S) (ps : List (List ℕ)) (m : Master)
    (t : Slave S) : Type 0 where
  object : t.object ≡ s.object
  version : t.version ≡ s.version
  queued : t.queued ≡ streams_from s.version ps
  current : t.current ≡ none
  head : m.version ≡ s.version + length ps
  subscribed : contains m.slaves node ≡ true

slaves-commit :
    (m next : Master) (incarnation : Option ℕ) (b : ℕ) (payload : List ℕ) (v : ℕ)
    (sent : List Message)
    → Advances m incarnation
    → commit m incarnation true (b ∷ payload) ≡ some (next, v, sent)
    → next.slaves ≡ m.slaves
unfolding obsolete commit_data
slaves-commit m next incarnation b payload v sent a e =
    elim (commit-cases m next incarnation true (b ∷ payload) v sent e) [
      | inl (clean, _, _, _) ↦ absurd (ground arith)
      | inr (_, same, _, _, _) ↦ rw (same, update_commit_count_fields m incarnation a)
    ]

-- A message of a commit reaches the slave on a subscribed node as one complete command.
delivered :
    {S : Type 0} (node : ℕ) (t : Slave S) (nodes : List ℕ) (v : ℕ) (p : List ℕ)
    → contains nodes node ≡ true
    → t.current ≡ none
    → v < version_newest
    → deliver node t (instance_commit nodes v p ∷ []) ≡ record t {
      queued = t.queued ++ stream_of v p ∷ [];
      heads = t.heads ++ v ∷ [];
      current = none;
    }
delivered node t nodes v p h c k =
    if_true {b = contains nodes node} _ _ h
    ∙ cmd_data_all-version t [] (commit_command v p) c tt refl (λ e. omega (arith, e))

sent_to_slaves :
    (m next : Master) (incarnation : Option ℕ) (b : ℕ) (payload : List ℕ) (v node : ℕ)
    (sent : List Message)
    → Advances m incarnation
    → m.version + 1 < version_newest
    → contains m.slaves node ≡ true
    → commit m incarnation true (b ∷ payload) ≡ some (next, v, sent)
    → (next.version ≡ m.version + 1)
      × (sent ≡ instance_commit m.slaves (m.version + 1) (b ∷ payload) ∷ [])
sent_to_slaves m next incarnation b payload v node sent a h k e =
    let (now, same, _, _, out) =
      commit_publishes m next incarnation b payload v sent a (omega arith) e in
    (
      same ∙ now,
      elim out [ inl (nobody, _) ↦ absurd (no_slaves nobody) | inr (_, message) ↦ message ],
    )
  where
    no_slaves : m.slaves ≡ [] → ⊥
    no_slaves nobody = false≢true (sym (ap (λ l. contains l node) nobody) ∙ k)

Run-IsReplica :
    {S : Type 0} (node : ℕ) (m : Master) (s : Slave S) (ps : List (List ℕ)) (n : Master)
    (t : Slave S)
    → IsReplica node s [] m s
    → Run node m s ps n t
    → IsReplica node s ps n t
Run-IsReplica node m s _ _ _ k start = k
Run-IsReplica node m s _ n _ k
      (commits {payloads = ps} {from = from} {t = t} incarnation b payload v sent r a h e) =
    let w = Run-IsReplica node m s ps from t k r in
    let (now, out) = sent_to_slaves from n incarnation b payload v node sent a h w.subscribed e in
    let got : deliver node t sent ≡ record t {
      queued = t.queued ++ stream_of (from.version + 1) (b ∷ payload) ∷ [];
      heads = t.heads ++ (from.version + 1) ∷ [];
      current = none;
    } =
      ap (deliver node t) out
      ∙ delivered node t from.slaves (from.version + 1) (b ∷ payload) w.subscribed w.current h in
    record {
      object = ap (λ x. x.object) got ∙ w.object;
      version = ap (λ x. x.version) got ∙ w.version;
      queued =
          ap (λ x. x.queued) got
          ∙ ap (λ l. l ++ stream_of (from.version + 1) (b ∷ payload) ∷ []) w.queued
          ∙ ap (λ u. streams_from s.version ps ++ stream_of u (b ∷ payload) ∷ [])
              (omega (arith, w.head))
          ∙ sym (streams_from-snoc s.version ps (b ∷ payload));
      current = ap (λ x. x.current) got;
      head = omega (arith, now, w.head, length-append ps ((b ∷ payload) ∷ []));
      subscribed =
          ap (λ l. contains l node) (slaves-commit from n incarnation b payload v sent a e)
          ∙ w.subscribed;
    }

-- A slave that is at the version of its master, with nothing queued, on a node that the master has
-- among its slaves: after any commits of payloads that are not empty, with counts that do not
-- decrease, each delivered in one packet, a sync to the head version brings it to the master's
-- version, with the payloads applied to its object in the order of the commits and nothing queued.
pub sync_head-Run :
    {S : Type 0} (o : Object S) (node : ℕ) (m n : Master) (s t : Slave S) (ps : List (List ℕ))
    → contains m.slaves node ≡ true
    → s.version ≡ m.version
    → s.queued ≡ []
    → s.current ≡ none
    → Run node m s ps n t
    → n.version < version_newest
    → (u : Slave S) × (sync o t version_head ≡ some u)
      × (u.version ≡ n.version)
      × (u.version ≡ m.version + length ps)
      × (u.object ≡ apply_payloads o s.object ps)
      × (u.queued ≡ [])
unfolding get_head_version
sync_head-Run o node m n s t ps member at_head empty idle r bound =
    let w =
      Run-IsReplica node m s ps n t
        (record {
          object = refl;
          version = refl;
          queued = empty;
          current = idle;
          head = omega (arith, at_head);
          subscribed = member;
        })
        r in
    let ordered : Consecutive (t.version + 1) t.queued =
      rw (w.version, w.queued) (streams_from-Consecutive s.version ps) in
    let head : get_head_version t ≡ n.version =
      back_version-Consecutive t.version t.queued ordered
      ∙ omega (arith, w.version, w.head, ap length w.queued, length-streams_from s.version ps) in
    let (u, run, k, none_left) = sync_head-IsSyncedTo o t ordered (omega (arith, head)) in
    let all : k.applied ≡ streams_from s.version ps =
      sym (k.split ∙ ap (λ l. k.applied ++ l) none_left ∙ append-nil k.applied) ∙ w.queued in
    (
      u,
      run,
      k.version ∙ head,
      omega (arith, k.version, head, w.head, at_head),
      k.object
          ∙ ap (apply_all o t.object) all
          ∙ apply_all-streams_from o t.object s.version ps
          ∙ ap (λ x. apply_payloads o x ps) w.object,
      none_left,
    )
