-- ===== src/Slave/Manager/Cached.antt =====
-- co/versionedSlaveCM.cpp: addInstanceDatas and the order of the queue.
use Prim.Native.Nat.{max, min}
use collage.Prelude.{
  ℕ, ◌+◌, ◌-◌, ◌≤◌, ◌<◌, ◌≡◌, subst, inl, inr, true, not, ◌&&◌, List, [], ◌∷◌, ◌++◌, arith, ltb,
  if◌then◌else◌, Bool-cases, length, length-append,
}
use collage.Slave.Versions.{AllReady, VersionStream, is_ready}
use collage.Slave.Manager.{
  Slave, cached_head, cached_tail, front_version, add_instance_datas, back_version,
}
use collage.Slave.Manager.Sync.{Consecutive, back_version-Consecutive}
use collage.Slave.Manager.Queue.{Consecutive-append}

Consecutive-subst : (v w : ℕ) (l : List VersionStream) → v ≡ w → Consecutive v l → Consecutive w l
Consecutive-subst v w l e h = subst (λ u. Consecutive u l) e h

Consecutive-no_streams : (v : ℕ) (l : List VersionStream) → length l ≡ 0 → Consecutive v l
Consecutive-no_streams v [] h = tt
Consecutive-no_streams v (is ∷ r) h = absurd (omega arith)

cached_head_step :
    (start p : ℕ) (is : VersionStream) (r : List VersionStream)
    → is_ready is ≡ true
    → cached_head start p (is ∷ r) ≡ (
        if ltb is.version start
        then cached_head start p r
        else if ltb is.version p
        then is ∷ cached_head start p r
        else cached_head start p r)
unfolding cached_head
cached_head_step start p is r h = rw h

cached_tail_step :
    (start p n : ℕ) (is : VersionStream) (r : List VersionStream)
    → is_ready is ≡ true
    → cached_tail start p n (is ∷ r) ≡ (
        if ltb is.version start
        then cached_tail start p n r
        else if not (ltb is.version p) && ltb n is.version
        then is ∷ cached_tail start p n r
        else cached_tail start p n r)
unfolding cached_tail
cached_tail_step start p n is r h = rw h

cached_head-Consecutive :
    (start p a : ℕ) (cache : List VersionStream)
    → Consecutive a cache
    → AllReady cache
    → Consecutive (max a start) (cached_head start p cache)
      × (length (cached_head start p cache) ≡ min (a + length cache) p - max a start)
unfolding cached_head
cached_head-Consecutive start p a [] h k = (tt, omega arith)
cached_head-Consecutive start p a (is ∷ r) h k =
    let (next, count) = cached_head-Consecutive start p (a + 1) r h.1 k.1 in
    rw (cached_head_step start p is r k.0) (elim (Bool-cases (ltb is.version start)) [
      | inl early ↦
          let older : a < start = ground arith in
          rw early (Consecutive-subst _ _ _ (omega arith) next, omega arith)
      | inr late ↦
          let later : start ≤ a = ground arith in
          elim (Bool-cases (ltb is.version p)) [
            | inl before ↦
                let b : a < p = ground arith in
                rw (late, before)
                  ((omega arith, Consecutive-subst _ _ _ (omega arith) next), omega arith)
            | inr behind ↦
                let b : p ≤ a = ground arith in
                rw (late, behind) (Consecutive-no_streams _ _ (omega arith), omega arith)
          ]
    ])

cached_tail-Consecutive :
    (start p n a : ℕ) (cache : List VersionStream)
    → p ≤ n
    → Consecutive a cache
    → AllReady cache
    → Consecutive (max (max a start) (n + 1)) (cached_tail start p n cache)
      × (length (cached_tail start p n cache) ≡ (a + length cache) - max (max a start) (n + 1))
unfolding cached_tail
cached_tail-Consecutive start p n a [] q h k = (tt, omega arith)
cached_tail-Consecutive start p n a (is ∷ r) q h k =
    let (next, count) = cached_tail-Consecutive start p n (a + 1) r q h.1 k.1 in
    rw (cached_tail_step start p n is r k.0) (elim (Bool-cases (ltb is.version start)) [
      | inl early ↦
          let older : a < start = ground arith in
          rw early (Consecutive-subst _ _ _ (omega arith) next, omega arith)
      | inr late ↦
          let later : start ≤ a = ground arith in
          elim (Bool-cases (not (ltb is.version p) && ltb n is.version)) [
            | inl newer ↦
                let b : n < a = ground arith in
                rw (late, newer)
                  ((omega arith, Consecutive-subst _ _ _ (omega arith) next), omega arith)
            | inr covered ↦
                let b : a ≤ n = ground arith in
                rw (late, covered) (Consecutive-subst _ _ _ (omega arith) next, omega arith)
          ]
    ])

-- Cached versions a, a + 1, ... that overlap or adjoin the queue p, p + 1, ... at its front end make
-- the queue longer at both ends, without a gap and without a duplicate: it then goes from the
-- first cached version that is wanted to the newest version of the two.
pub add_instance_datas-Consecutive :
    {S : Type 0} (s : Slave S) (is : VersionStream) (r cache : List VersionStream) (start p a : ℕ)
    → s.queued ≡ is ∷ r
    → Consecutive p s.queued
    → Consecutive a cache
    → AllReady cache
    → max a start ≤ p
    → p ≤ a + length cache
    → Consecutive (max a start) (add_instance_datas s cache start).queued
      × (length (add_instance_datas s cache start).queued
          ≡ max (a + length cache) (p + length s.queued) - max a start)
unfolding add_instance_datas front_version back_version
add_instance_datas-Consecutive s is r cache start p a q h k ready lo hi =
    let h' : Consecutive p (is ∷ r) = rw q at h in
    let first : is.version ≡ p = h'.0 in
    let newest : back_version is.version r ≡ is.version + length r =
      back_version-Consecutive is.version r (Consecutive-subst _ _ _ (omega arith) h'.1) in
    let n = is.version + length r in
    let (head, head_count) = cached_head-Consecutive start is.version a cache k ready in
    let (tail, tail_count) =
      cached_tail-Consecutive start is.version n a cache (omega arith) k ready in
    rw (q, newest)
      (
        Consecutive-append (max a start) (cached_head start is.version cache) _ head (
            Consecutive-append _ (is ∷ r) _
              (Consecutive-subst p (max a start + length (cached_head start is.version cache))
                (is ∷ r) (omega arith) h')
              (Consecutive-subst _
                (max a start + length (cached_head start is.version cache) + length (is ∷ r)) _
                (omega arith) tail)),
        omega (
          arith,
          length-append (cached_head start is.version cache)
              (is ∷ (r ++ cached_tail start is.version n cache)),
          length-append r (cached_tail start is.version n cache),
        ),
      )
