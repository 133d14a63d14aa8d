-- ===== src/Rsp/Members/Distinct.antt =====
-- co/rspConnection.cpp: the members of the group have different identifiers.
use collage.Prelude.{
  ℕ, ◌≡◌, refl, sym, ap, ◌∙◌, subst, ◌≢◌, inl, inr, Bool, true, false, ◌||◌, List, [], ◌∷◌, ◌++◌,
  arith, ◌==◌, if_true, if_false, Bool-cases, All, All-append,
}
use mathlib.Core.Bool.{false≢true}
use collage.Rsp.State.{Settings, Child, Listener, find_connection}
use collage.Rsp.Members.{
  NodeType, id_hello, id_confirm, node_count, id_hello_reply, id_exit, id_deny, is_found,
  send_count_node, new_connection, add_connection, erase_connection, remove_connection,
  check_new_id, reset_timeouts, handle_init_data,
}

abbrev pub IsDistinct : List Child → Type 0
IsDistinct [] = Unit
IsDistinct (c ∷ cs) = All (λ d. d.id ≢ c.id) cs × IsDistinct cs

-- The listener has one child for itself, and children with different identifiers.
pub record IsGroup (l : Listener) : Type 0 where
  pub distinct : IsDistinct l.children
  pub own : is_found (find_connection l.id l.children) ≡ true

not-found :
    (id : ℕ) (cs : List Child) → is_found (find_connection id cs) ≡ false → All (λ d. d.id ≢ id) cs
not-found id [] h = tt
not-found id (c ∷ cs) h = elim (Bool-cases (c.id == id)) [
  | inl e ↦ absurd (false≢true (sym h ∙ ap is_found (if_true _ _ e)))
  | inr e ↦ (ground (arith, e), not-found id cs (sym (ap is_found (if_false _ _ e)) ∙ h))
]

All-erase :
    (P : Child → Type 0) (id : ℕ) (cs : List Child) → All P cs → All P (erase_connection id cs)
All-erase P id [] h = tt
All-erase P id (c ∷ cs) h = elim (Bool-cases (c.id == id)) [
  | inl e ↦ subst (All P) (sym (if_true _ _ e)) h.1
  | inr e ↦ subst (All P) (sym (if_false _ _ e)) (h.0, All-erase P id cs h.1)
]

IsDistinct-erase : (id : ℕ) (cs : List Child) → IsDistinct cs → IsDistinct (erase_connection id cs)
IsDistinct-erase id [] h = tt
IsDistinct-erase id (c ∷ cs) h = elim (Bool-cases (c.id == id)) [
  | inl e ↦ subst IsDistinct (sym (if_true _ _ e)) h.1
  | inr e ↦
      subst IsDistinct (sym (if_false _ _ e)) (All-erase _ id cs h.0, IsDistinct-erase id cs h.1)
]

IsDistinct-add :
    (cs : List Child) (d : Child)
    → IsDistinct cs
    → All (λ e. e.id ≢ d.id) cs
    → IsDistinct (cs ++ d ∷ [])
IsDistinct-add [] d h g = (tt, tt)
IsDistinct-add (c ∷ cs) d h g =
    (All-append _ cs (d ∷ []) h.0 ((λ e. g.0 (sym e)), tt), IsDistinct-add cs d h.1 g.1)

found-under :
    (own : ℕ) (c : Child) (cs ds : List Child)
    → is_found (find_connection own cs) ≡ is_found (find_connection own ds)
    → is_found (find_connection own (c ∷ cs)) ≡ is_found (find_connection own (c ∷ ds))
found-under own c cs ds h = elim (Bool-cases (c.id == own)) [
  | inl e ↦ ap is_found (if_true _ _ e) ∙ sym (ap is_found (if_true _ _ e))
  | inr e ↦ ap is_found (if_false _ _ e) ∙ h ∙ sym (ap is_found (if_false _ _ e))
]

found-erase :
    (own id : ℕ) (cs : List Child)
    → id ≢ own
    → is_found (find_connection own (erase_connection id cs)) ≡ is_found (find_connection own cs)
found-erase own id [] h = refl
found-erase own id (c ∷ cs) h = elim (Bool-cases (c.id == id)) [
  | inl e ↦
      let other : (c.id == own) ≡ false = ground (arith, e, h) in
      ap (λ l. is_found (find_connection own l)) (if_true _ _ e)
      ∙ ap is_found (sym (if_false _ _ other))
  | inr e ↦
      ap (λ l. is_found (find_connection own l)) (if_false _ _ e)
      ∙ found-under own c (erase_connection id cs) cs (found-erase own id cs h)
]

found-add :
    (own : ℕ) (cs : List Child) (d : Child)
    → is_found (find_connection own cs) ≡ true
    → is_found (find_connection own (cs ++ d ∷ [])) ≡ true
found-add own [] d h = absurd (ground arith)
found-add own (c ∷ cs) d h = elim (Bool-cases (c.id == own)) [
  | inl e ↦ ap is_found (if_true _ _ e)
  | inr e ↦
      ap is_found (if_false _ _ e) ∙ found-add own cs d (sym (ap is_found (if_false _ _ e)) ∙ h)
]

-- What the operations keep; the messages that they send play no part.
IsGroup-send_count_node : (l : Listener) → IsGroup l → IsGroup (send_count_node l)
unfolding send_count_node
IsGroup-send_count_node l h =
    subst IsGroup (sym (if_true _ _ h.own)) (record { distinct = h.distinct; own = h.own })

IsGroup-add_connection :
    (settings : Settings) (id sequence : ℕ) (l : Listener)
    → IsGroup l
    → IsGroup (add_connection settings id sequence l)
unfolding add_connection
IsGroup-add_connection settings id sequence l h =
    elim (Bool-cases (is_found (find_connection id l.children))) [
      | inl e ↦ subst IsGroup (sym (if_true _ _ e)) h
      | inr e ↦ subst IsGroup (sym (if_false _ _ e)) (
          IsGroup-send_count_node _ (record {
            distinct =
                IsDistinct-add l.children (new_connection settings id sequence) h.distinct
                  (not-found id l.children e);
            own = found-add l.id l.children (new_connection settings id sequence) h.own;
          }))
    ]

IsGroup-remove_connection : (id : ℕ) (l : Listener) → IsGroup l → IsGroup (remove_connection id l)
unfolding remove_connection
IsGroup-remove_connection id l h = elim (Bool-cases (id == l.id)) [
  | inl e ↦ subst IsGroup (sym (if_true _ _ e)) h
  | inr e ↦ subst IsGroup (sym (if_false _ _ e)) (
      IsGroup-send_count_node _ (record {
        distinct = IsDistinct-erase id l.children h.distinct;
        own = found-erase l.id id l.children (ground (arith, e)) ∙ h.own;
      }))
]

IsGroup-check_new_id : (id : ℕ) (l : Listener) → IsGroup l → IsGroup (check_new_id id l)
unfolding check_new_id
IsGroup-check_new_id id l h =
    elim (Bool-cases ((id == l.id) || is_found (find_connection id l.children))) [
      | inl e ↦ subst IsGroup (sym (if_true _ _ e)) (record { distinct = h.distinct; own = h.own })
      | inr e ↦ subst IsGroup (sym (if_false _ _ e)) (record { distinct = h.distinct; own = h.own })
    ]

IsGroup-reset_timeouts :
    (connected : Bool) (l : Listener) → IsGroup l → IsGroup (reset_timeouts connected l)
IsGroup-reset_timeouts true l h = h
IsGroup-reset_timeouts false l h = record { distinct = h.distinct; own = h.own }

-- Whatever datagram about the members arrives, the children of a listener keep different
-- identifiers, and the one for itself stays.
pub handle_init_data-IsGroup :
    (settings : Settings) (connected : Bool) (t : NodeType) (id sequence : ℕ) (l : Listener)
    → IsGroup l
    → IsGroup (handle_init_data settings connected t id sequence l)
unfolding handle_init_data
handle_init_data-IsGroup settings connected id_hello id sequence l h =
    IsGroup-check_new_id id _ (IsGroup-reset_timeouts connected l h)
handle_init_data-IsGroup settings connected id_confirm id sequence l h =
    IsGroup-add_connection settings id sequence _ (IsGroup-reset_timeouts connected l h)
handle_init_data-IsGroup settings connected node_count id sequence l h = h
handle_init_data-IsGroup settings connected id_hello_reply id sequence l h =
    IsGroup-add_connection settings id sequence l h
handle_init_data-IsGroup settings connected id_exit id sequence l h =
    IsGroup-remove_connection id l h
handle_init_data-IsGroup settings connected id_deny id sequence l h = h
