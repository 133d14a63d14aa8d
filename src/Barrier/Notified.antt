-- ===== src/Barrier/Notified.antt =====
-- co/barrier.cpp: whom _sendNotify reaches, for a list of nodes.
use collage.Prelude.{
  ℕ, ◌+◌, ◌%◌, ◌<◌, ◌≡◌, refl, sym, ◌∙◌, subst, inl, inr, true, false, not, List, [], ◌∷◌, ◌++◌,
  map, append_assoc, append-nil, arith, ◌==◌, if_true, if_false, Bool-cases, length, filter_by,
  u32_mod,
}
use collage.Barrier.State.{enter_reply, Barrier, send_notify, notify_all}

-- The nodes that a notification reaches by a message, and those that it unblocks here.
abbrev pub remote : Barrier → List ℕ → List ℕ
remote b ns = filter_by (λ n. not (n == b.local)) ns

abbrev pub local_users : Barrier → List ℕ → List ℕ
local_users b ns = filter_by (λ n. n == b.local) ns

notify_local :
    (b : Barrier) (n : ℕ)
    → (n == b.local) ≡ true
    → send_notify b.version b n ≡ record b { incarnation = (b.incarnation + 1) % u32_mod }
unfolding send_notify
notify_local b n h =
    if_true {b = n == b.local} _ _ h ∙ if_true {b = b.version == b.version} _ _ (ground arith)

notify_remote :
    (b : Barrier) (n : ℕ)
    → (n == b.local) ≡ false
    → send_notify b.version b n ≡ record b { sent = b.sent ++ enter_reply n b.version ∷ [] }
unfolding send_notify
notify_remote b n h = if_false {b = n == b.local} _ _ h

-- What the notification of a list of nodes has done.
pub record IsNotified (b t : Barrier) (ns : List ℕ) : Type 0 where
  pub sent : t.sent ≡ b.sent ++ map (λ n. enter_reply n b.version) (remote b ns)
  pub incarnation : t.incarnation ≡ (b.incarnation + length (local_users b ns)) % u32_mod
  pub entered : t.entered ≡ b.entered
  pub version : t.version ≡ b.version

pub notify_all-IsNotified :
    (b : Barrier) (ns : List ℕ)
    → b.incarnation < u32_mod
    → IsNotified b (notify_all b.version b ns) ns
unfolding notify_all
notify_all-IsNotified b [] h = record {
  sent = sym (append-nil b.sent);
  incarnation = omega arith;
  entered = refl;
  version = refl;
}
notify_all-IsNotified b (n ∷ ns) h = elim (Bool-cases (n == b.local)) [
  | inl here ↦
      let now : Barrier = record b { incarnation = (b.incarnation + 1) % u32_mod } in
      let next = notify_all-IsNotified now ns (omega arith) in
      subst (λ x. IsNotified b (notify_all b.version x ns) (n ∷ ns)) (sym (notify_local b n here))
        (record {
          sent = rw here next.sent;
          incarnation = rw here (next.incarnation ∙ omega arith);
          entered = next.entered;
          version = next.version;
        })
  | inr away ↦
      let now : Barrier = record b { sent = b.sent ++ enter_reply n b.version ∷ [] } in
      let next = notify_all-IsNotified now ns h in
      subst (λ x. IsNotified b (notify_all b.version x ns) (n ∷ ns)) (sym (notify_remote b n away))
        (record {
          sent = rw away (next.sent ∙ append_assoc b.sent (enter_reply n b.version ∷ []) _);
          incarnation = rw away next.incarnation;
          entered = next.entered;
          version = next.version;
        })
]
