-- ===== src/Master/Slaves/Subscribed.antt =====
-- co/versionedMasterCM.cpp: the node list, the commit limit and the subscribed slaves.
use collage.Prelude.{
  ℕ, ◌≡◌, refl, sym, ◌∙◌, inl, inr, false, not, ◌&&◌, ◌||◌, List, [], ◌∷◌, ◌++◌, map, arith, ◌==◌,
  Bool-cases, contains, filter_by, u64_max,
}
use collage.Master.State.{Master, SlaveData, MapCommand}
use collage.Master.Slaves.{
  lowest_limit, new_slave, erase_slave, has_slave, erase_node, remove_slaves, set_limit,
  cmd_max_version, add_slave, remove_slave,
}

abbrev pub nodes_of : List SlaveData → List ℕ
nodes_of l = map (λ s. s.node) l

abbrev pub IsDistinct : List ℕ → Type 0
IsDistinct [] = Unit
IsDistinct (x ∷ xs) = (contains xs x ≡ false) × IsDistinct xs

-- _slaves has each node of _slaveData once and no other; _maxVersion is the lowest limit.
pub record IsSubscribed (m : Master) : Type 0 where
  pub listed : (n : ℕ) → contains m.slaves n ≡ contains (nodes_of m.slave_data) n
  pub distinct : IsDistinct m.slaves
  pub limited : m.max_version ≡ lowest_limit u64_max m.slave_data

-- What lunchbox::usort does: it sorts, and removes what occurs twice.
pub record IsUniqueSort (usort : List ℕ → List ℕ) : Type 0 where
  pub same_members : (l : List ℕ) (n : ℕ) → contains (usort l) n ≡ contains l n
  pub no_duplicates : (l : List ℕ) → IsDistinct (usort l)

contains-append : (xs ys : List ℕ) (n : ℕ) → contains (xs ++ ys) n ≡ contains xs n || contains ys n
contains-append [] ys n = refl
contains-append (x ∷ xs) ys n = ground (arith, contains-append xs ys n)

nodes_of-append : (xs ys : List SlaveData) → nodes_of (xs ++ ys) ≡ nodes_of xs ++ nodes_of ys
nodes_of-append [] ys = refl
nodes_of-append (x ∷ xs) ys = rw (nodes_of-append xs ys)

contains-erase_node :
    (n a : ℕ) (l : List ℕ)
    → IsDistinct l
    → contains (erase_node n l) a ≡ not (n == a) && contains l a
unfolding erase_node
contains-erase_node n a [] h = ground arith
contains-erase_node n a (x ∷ r) h = elim (Bool-cases (x == n)) [
  | inl t ↦
      let same : x ≡ n = ground arith in
      elim (Bool-cases (n == a)) [
        | inl u ↦ let here : a ≡ x = ground arith in rw (t, u) (rw here h.0)
        | inr u ↦ rw (t, u) (ground arith)
      ]
  | inr t ↦ rw t (ground (arith, contains-erase_node n a r h.1))
]

IsDistinct-erase_node : (n : ℕ) (l : List ℕ) → IsDistinct l → IsDistinct (erase_node n l)
unfolding erase_node
IsDistinct-erase_node n [] h = h
IsDistinct-erase_node n (x ∷ r) h = elim (Bool-cases (x == n)) [
  | inl t ↦ rw t h.1
  | inr t ↦ rw t (ground (arith, contains-erase_node n x r h.1), IsDistinct-erase_node n r h.1)
]

contains-filter_by :
    (n a : ℕ) (l : List SlaveData)
    → contains (nodes_of (filter_by (λ s. not (s.node == n)) l)) a
      ≡ not (n == a) && contains (nodes_of l) a
contains-filter_by n a [] = ground arith
contains-filter_by n a (x ∷ r) = ground (arith, contains-filter_by n a r)

nodes_of-set_limit :
    (s : SlaveData) (v : ℕ) (l : List SlaveData) → nodes_of (set_limit s v l) ≡ nodes_of l
unfolding set_limit
nodes_of-set_limit s v [] = refl
nodes_of-set_limit s v (t ∷ r) = ground (arith, nodes_of-set_limit s v r)

pub remove_slaves-IsSubscribed :
    (m : Master) (node : ℕ) → IsSubscribed m → IsSubscribed (remove_slaves m node)
unfolding remove_slaves
remove_slaves-IsSubscribed m node v = elim (Bool-cases (contains m.slaves node)) [
  | inl t ↦ rw t (record {
    listed = λ n.
        contains-erase_node node n m.slaves v.distinct
        ∙ (rw (v.listed n) (sym (contains-filter_by node n m.slave_data)));
    distinct = IsDistinct-erase_node node m.slaves v.distinct;
    limited = refl;
  })
  | inr t ↦ rw t v
]

pub cmd_max_version-IsSubscribed :
    (m : Master) (node version slave_id : ℕ)
    → IsSubscribed m
    → IsSubscribed (cmd_max_version m node version slave_id)
unfolding cmd_max_version
cmd_max_version-IsSubscribed m node version slave_id v =
    elim (Bool-cases (has_slave s m.slave_data)) [
      | inl t ↦ rw t (record {
        listed = λ n. rw (nodes_of-set_limit s version m.slave_data) (v.listed n);
        distinct = v.distinct;
        limited = refl;
      })
      | inr t ↦ rw t v
    ]
  where
    s : SlaveData
    s = record { node = node; max_version = u64_max; instance_id = slave_id }

module _ (usort : List ℕ → List ℕ) (law : IsUniqueSort usort) where
  pub add_slave-IsSubscribed :
      (m : Master) (c : MapCommand) → IsSubscribed m → IsSubscribed (add_slave usort m c).0
  unfolding add_slave
  add_slave-IsSubscribed m c v = record {
    listed = λ n.
        law.same_members (m.slaves ++ c.node ∷ []) n
        ∙ contains-append m.slaves (c.node ∷ []) n
        ∙ rw (nodes_of-append m.slave_data (new_slave m c ∷ []))
            (rw (contains-append (nodes_of m.slave_data) (c.node ∷ []) n, v.listed n));
    distinct = law.no_duplicates (m.slaves ++ c.node ∷ []);
    limited = refl;
  }

  pub remove_slave-IsSubscribed :
      (m : Master) (node instance_id : ℕ)
      → IsSubscribed m
      → IsSubscribed (remove_slave usort m node instance_id)
  unfolding remove_slave
  remove_slave-IsSubscribed m node instance_id v = elim (Bool-cases (has_slave s m.slave_data)) [
    | inl t ↦ rw t (record {
      listed = λ n. law.same_members (nodes_of (erase_slave s m.slave_data)) n;
      distinct = law.no_duplicates (nodes_of (erase_slave s m.slave_data));
      limited = refl;
    })
    | inr t ↦ rw t v
  ]
    where
      s : SlaveData
      s = record { node = node; max_version = u64_max; instance_id = instance_id }
