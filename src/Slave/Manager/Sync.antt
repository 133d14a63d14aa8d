-- ===== src/Slave/Manager/Sync.antt =====
-- co/versionedSlaveCM.cpp: which version sync reaches and what it applies on the way.
use collage.Prelude.{
  ℕ, ◌+◌, ◌-◌, ◌≤◌, ◌<◌, ◌≡◌, refl, sym, ap, ◌∙◌, subst, inl, inr, false, some, List, [], ◌∷◌, ◌++◌,
  arith, ltb, ◌==◌, if_true, if_false, ltb→lt, Bool-cases, length,
}
use collage.Master.State.{version_head, version_next, version_newest}
use collage.Slave.Versions.{VersionStream}
use collage.Slave.Manager.{
  Object, Slave, send_ack, apply_stream, unpack_one_version, unpack_all, unpack_until, sync,
  back_version, get_head_version,
}

-- The versions of the streams are v, v + 1 and so on.
abbrev pub Consecutive : ℕ → List VersionStream → Type 0
Consecutive v [] = Unit
Consecutive v (is ∷ r) = (is.version ≡ v) × Consecutive (v + 1) r

pub back_version-Consecutive :
    (v : ℕ) (l : List VersionStream) → Consecutive (v + 1) l → back_version v l ≡ v + length l
unfolding back_version
back_version-Consecutive v [] h = omega arith
back_version-Consecutive v (is ∷ r) h =
    rw h.0 (back_version-Consecutive (v + 1) r h.1 ∙ omega arith)

module _ {S : Type 0} (o : Object S) where
  abbrev pub apply_all : S → List VersionStream → S
  apply_all x [] = x
  apply_all x (is ∷ r) = apply_all (apply_stream o x is) r

  send_ack_fields :
      (s : Slave S)
      → let t = send_ack o s in
        (t.version ≡ s.version)
        × (t.object ≡ s.object)
        × (t.queued ≡ s.queued)
        × (t.current ≡ s.current)
  unfolding send_ack
  send_ack_fields s = ground arith

  unpack_fields :
      (s : Slave S) (is : VersionStream)
      → let t = unpack_one_version o s is in
        (t.version ≡ is.version)
        × (t.object ≡ apply_stream o s.object is)
        × (t.queued ≡ s.queued)
        × (t.current ≡ s.current)
  unfolding unpack_one_version
  unpack_fields s is =
      send_ack_fields (record s { object = apply_stream o s.object is; version = is.version })

  -- The state after syncing to v: the streams up to v are applied in order, the later ones wait.
  pub record IsSyncedTo (v : ℕ) (s t : Slave S) (l : List VersionStream) : Type 0 where
    pub version : t.version ≡ v
    pub applied : List VersionStream
    pub split : l ≡ applied ++ t.queued
    pub object : t.object ≡ apply_all s.object applied
    pub count : length applied ≡ v - s.version
    pub current : t.current ≡ s.current

  IsSyncedTo-step :
      (v : ℕ) (s t : Slave S) (is : VersionStream) (r : List VersionStream)
      → is.version ≡ s.version + 1
      → s.version < v
      → IsSyncedTo v (unpack_one_version o s is) t r
      → IsSyncedTo v s t (is ∷ r)
  IsSyncedTo-step v s t is r e h k =
      let f = unpack_fields s is in
      record {
        version = k.version;
        applied = is ∷ k.applied;
        split = ap (◌∷◌ is) k.split;
        object = k.object ∙ ap (λ x. apply_all x k.applied) f.1;
        count = omega (arith, k.count, f.0);
        current = k.current ∙ f.3;
      }

  unpack_until-IsSyncedTo :
      (v : ℕ) (s : Slave S) (l : List VersionStream)
      → Consecutive (s.version + 1) l
      → s.version ≤ v
      → v ≤ s.version + length l
      → (t : Slave S) × (unpack_until o v s l ≡ some t) × IsSyncedTo v s t l
  unfolding unpack_until
  unpack_until-IsSyncedTo v s [] h lo hi = (
    record s { queued = [] },
    if_false {b = ltb s.version v} _ _ (ground arith),
    record {
      version = omega arith;
      applied = [];
      split = refl;
      object = refl;
      count = omega arith;
      current = refl;
    },
  )
  unpack_until-IsSyncedTo v s (is ∷ r) h lo hi = elim (Bool-cases (ltb s.version v)) [
    | inl more ↦
        let f = unpack_fields s is in
        let before : s.version < v = ltb→lt _ _ more in
        let (t, run, k) =
          unpack_until-IsSyncedTo v (unpack_one_version o s is) r (rw (f.0, h.0) h.1)
            (rw (f.0, h.0) (omega arith)) (rw (f.0, h.0) (omega arith)) in
        (t, if_true _ _ more ∙ run, IsSyncedTo-step v s t is r h.0 before k)
    | inr done ↦ (
      record s { queued = is ∷ r },
      if_false _ _ done,
      record {
        version = ground arith;
        applied = [];
        split = refl;
        object = refl;
        count = ground arith;
        current = refl;
      },
    )
  ]

  unpack_all-IsSyncedTo :
      (s : Slave S) (l : List VersionStream)
      → Consecutive (s.version + 1) l
      → IsSyncedTo (s.version + length l) s (unpack_all o s l) l
  unfolding unpack_all
  unpack_all-IsSyncedTo s [] h = record {
    version = omega arith;
    applied = [];
    split = refl;
    object = refl;
    count = omega arith;
    current = refl;
  }
  unpack_all-IsSyncedTo s (is ∷ r) h =
      let f = unpack_fields s is in
      let now : (unpack_one_version o s is).version ≡ s.version + 1 = f.0 ∙ h.0 in
      let k = unpack_all-IsSyncedTo (unpack_one_version o s is) r (rw now h.1) in
      IsSyncedTo-step (s.version + length (is ∷ r)) s (unpack_all o (unpack_one_version o s is) r)
        is r h.0 (omega arith)
        (subst
          (λ v.
            IsSyncedTo v (unpack_one_version o s is) (unpack_all o (unpack_one_version o s is) r) r)
          (omega arith) k)

  -- A slave whose queue continues its version, and that is asked for a version that has arrived,
  -- reaches just that version: it applies the streams up to it, in order, and the rest waits.
  pub sync-IsSyncedTo :
      (s : Slave S) (v : ℕ)
      → Consecutive (s.version + 1) s.queued
      → s.version < v
      → v ≤ get_head_version s
      → v < version_next
      → (t : Slave S) × (sync o s v ≡ some t) × IsSyncedTo v s t s.queued
  unfolding sync get_head_version
  sync-IsSyncedTo s v h lo hi special =
      let (t, run, k) =
        unpack_until-IsSyncedTo v s s.queued h (omega arith)
          (omega (arith, back_version-Consecutive s.version s.queued h)) in
      let e : (s.version == v) ≡ false = ground arith in
      let f : (v == version_head) ≡ false = ground arith in
      let g : (v == version_next) ≡ false = ground arith in
      (
        t,
        if_false _ _ e
            ∙ if_false _ _ f
            ∙ ap (λ w. unpack_until o w s s.queued) (if_false _ _ g)
            ∙ run,
        k,
      )

  unpack_all-queued : (s : Slave S) (l : List VersionStream) → (unpack_all o s l).queued ≡ []
  unfolding unpack_all
  unpack_all-queued s [] = refl
  unpack_all-queued s (is ∷ r) = unpack_all-queued (unpack_one_version o s is) r

  -- Syncing to the head version applies all that has arrived, and reaches the head version.
  pub sync_head-IsSyncedTo :
      (s : Slave S)
      → Consecutive (s.version + 1) s.queued
      → get_head_version s < version_newest
      → (t : Slave S) × (sync o s version_head ≡ some t)
        × IsSyncedTo (get_head_version s) s t s.queued
        × (t.queued ≡ [])
  unfolding sync get_head_version
  sync_head-IsSyncedTo s h special =
      let last = back_version-Consecutive s.version s.queued h in
      let e : (s.version == version_head) ≡ false = ground arith in
      (
        unpack_all o s s.queued,
        if_false _ _ e,
        subst (λ v. IsSyncedTo v s (unpack_all o s s.queued) s.queued) (sym last)
            (unpack_all-IsSyncedTo s s.queued h),
        unpack_all-queued s s.queued,
      )
