-- ===== src/Slave/Manager/Queue.antt =====
-- co/versionedSlaveCM.cpp: _cmdData, and applyMapData on the queue.
use collage.Prelude.{
  ℕ, ◌+◌, ◌<◌, ◌≡◌, refl, sym, ap, ◌∙◌, subst, ◌≢◌, true, false, not, Option, none, some, List, [],
  ◌∷◌, ◌++◌, append_assoc, append-nil, arith, ltb, ◌==◌, if◌then◌else◌, if_true, if_false, length,
  All,
}
use collage.Master.State.{version_invalid}
use collage.Slave.Versions.{
  DataCommand, VersionStream, is_ready, last_version, add_data_command, stream_payload,
}
use collage.Slave.Manager.{Object, Slave, cmd_data, store_stream, current_stream, apply_map_data}
use collage.Slave.Manager.Sync.{Consecutive}

last_version-snoc :
    (cs : List DataCommand) (c : DataCommand) → last_version (cs ++ c ∷ []) ≡ c.version
unfolding last_version
last_version-snoc [] c = refl
last_version-snoc (d ∷ []) c = refl
last_version-snoc (d ∷ e ∷ cs) c = last_version-snoc (e ∷ cs) c

-- The stream that is arriving holds the given commands.
abbrev pub arriving : List DataCommand → Option VersionStream
arriving [] = none
arriving (c ∷ cs) = some (record { commands = c ∷ cs; version = version_invalid })

current_stream-arriving :
    (cs : List DataCommand)
    → current_stream (arriving cs) ≡ record { commands = cs; version = version_invalid }
current_stream-arriving [] = refl
current_stream-arriving (c ∷ cs) = refl

arriving-snoc :
    (cs : List DataCommand) (c : DataCommand)
    → arriving (cs ++ c ∷ []) ≡ some (record { commands = cs ++ c ∷ []; version = version_invalid })
arriving-snoc [] c = refl
arriving-snoc (d ∷ cs) c = refl

add-more :
    (cs : List DataCommand) (c : DataCommand)
    → c.is_last ≡ false
    → add_data_command (record { commands = cs; version = version_invalid }) c
      ≡ record { commands = cs ++ c ∷ []; version = version_invalid }
unfolding add_data_command
add-more cs c more = if_false _ _ more

add-last :
    (cs : List DataCommand) (c : DataCommand)
    → c.is_last ≡ true
    → add_data_command (record { commands = cs; version = version_invalid }) c
      ≡ record { commands = cs ++ c ∷ []; version = c.version }
unfolding add_data_command
add-last cs c done =
    if_true _ _ done
    ∙ ap (λ v. record { commands = cs ++ c ∷ []; version = v }) (last_version-snoc cs c)

module _ {S : Type 0} where
  cmd_data-more :
      (s : Slave S) (cs : List DataCommand) (c : DataCommand)
      → s.current ≡ arriving cs
      → c.is_last ≡ false
      → cmd_data s c ≡ record s { current = arriving (cs ++ c ∷ []) }
  unfolding cmd_data is_ready
  cmd_data-more s cs c e more =
      ap (store_stream s) (
        ap (λ is. add_data_command is c) (ap current_stream e ∙ current_stream-arriving cs)
        ∙ add-more cs c more)
      ∙ ap (λ is. record s { current = is }) (sym (arriving-snoc cs c))

  cmd_data-last :
      (s : Slave S) (cs : List DataCommand) (c : DataCommand)
      → s.current ≡ arriving cs
      → c.is_last ≡ true
      → c.version ≢ version_invalid
      → cmd_data s c ≡ record s {
        queued = s.queued ++ record { commands = cs ++ c ∷ []; version = c.version } ∷ [];
        heads = s.heads ++ c.version ∷ [];
        current = none;
      }
  unfolding cmd_data is_ready
  cmd_data-last s cs c e done valid =
      let ready : not (c.version == version_invalid) ≡ true = ground arith in
      ap (store_stream s) (
        ap (λ is. add_data_command is c) (ap current_stream e ∙ current_stream-arriving cs)
        ∙ add-last cs c done)
      ∙ if_true _ _ ready

  abbrev pub cmd_data_all : Slave S → List DataCommand → Slave S
  cmd_data_all s [] = s
  cmd_data_all s (c ∷ cs) = cmd_data_all (cmd_data s c) cs

  cmd_data_all-from :
      (s : Slave S) (old cs : List DataCommand) (c : DataCommand)
      → s.current ≡ arriving old
      → All (λ d. d.is_last ≡ false) cs
      → c.is_last ≡ true
      → c.version ≢ version_invalid
      → cmd_data_all s (cs ++ c ∷ []) ≡ record s {
        queued = s.queued ++ record { commands = (old ++ cs) ++ c ∷ []; version = c.version } ∷ [];
        heads = s.heads ++ c.version ∷ [];
        current = none;
      }
  cmd_data_all-from s old [] c e more done valid =
      rw (append-nil old) (cmd_data-last s old c e done valid)
  cmd_data_all-from s old (d ∷ cs) c e more done valid =
      ap (λ t. cmd_data_all t (cs ++ c ∷ [])) (cmd_data-more s old d e more.0)
      ∙ cmd_data_all-from (record s { current = arriving (old ++ d ∷ []) }) (old ++ d ∷ []) cs c
          refl more.1 done valid
      ∙ rw (append_assoc old (d ∷ []) cs)

  -- The commands of one version, of which the last one alone is marked so, become one queued stream
  -- with those commands in order; its version is announced, and no stream is left arriving.
  pub cmd_data_all-version :
      (s : Slave S) (cs : List DataCommand) (c : DataCommand)
      → s.current ≡ none
      → All (λ d. d.is_last ≡ false) cs
      → c.is_last ≡ true
      → c.version ≢ version_invalid
      → cmd_data_all s (cs ++ c ∷ []) ≡ record s {
        queued = s.queued ++ record { commands = cs ++ c ∷ []; version = c.version } ∷ [];
        heads = s.heads ++ c.version ∷ [];
        current = none;
      }
  cmd_data_all-version s cs c e more done valid = cmd_data_all-from s [] cs c e more done valid

pub Consecutive-append :
    (v : ℕ) (l r : List VersionStream)
    → Consecutive v l
    → Consecutive (v + length l) r
    → Consecutive v (l ++ r)
Consecutive-append v [] r h k = subst (λ w. Consecutive w r) (omega arith) k
Consecutive-append v (is ∷ l) r h k =
    (h.0, Consecutive-append (v + 1) l r h.1 (subst (λ w. Consecutive w r) (omega arith) k))

-- Commits newer than the version that the map reply names, which have arrived before the map data,
-- are dropped: the first queued stream of that version gives the object its state, and what follows
-- it stays queued.
pub apply_map_data_first :
    {S : Type 0} (o : Object S) (s : Slave S) (v : ℕ) (skipped rest : List VersionStream)
    (is : VersionStream)
    → All (λ d. v < d.version) skipped
    → is.version ≡ v
    → (t : Slave S) × (apply_map_data o v s (skipped ++ is ∷ rest) ≡ some t)
      × (t.version ≡ v)
      × (t.queued ≡ rest)
      × (t.object ≡ (
          if ltb 0 (length (stream_payload is))
          then o.apply_instance_data s.object (stream_payload is)
          else s.object))
unfolding apply_map_data
apply_map_data_first o s v [] rest is h e =
    let same : (is.version == v) ≡ true = ground arith in
    (
      record s {
        object =
            if ltb 0 (length (stream_payload is))
            then o.apply_instance_data s.object (stream_payload is)
            else s.object;
        version = is.version;
        queued = rest;
      },
      if_true _ _ same,
      e,
      refl,
      refl,
    )
apply_map_data_first o s v (d ∷ skipped) rest is h e =
    let other : (d.version == v) ≡ false = ground (arith, h.0) in
    let (t, run, version, queued, object) = apply_map_data_first o s v skipped rest is h.1 e in
    (t, if_false _ _ other ∙ run, version, queued, object)
