-- ===== src/Barrier/Requests.antt =====
-- co/barrier.cpp: the requests of a barrier by version, and _cleanup.
use collage.Prelude.{
  ℕ, ◌+◌, ◌%◌, ◌<◌, ◌≡◌, sym, ap, ◌∙◌, inl, inr, Bool, false, Option, none, some, List, [], ◌∷◌,
  arith, ltb, ◌==◌, if_true, if_false, Bool-cases, length, u64_mod,
}
use collage.Barrier.State.{
  Request, find_request, put_request, erase_request, is_expired, milliseconds_of, erase_expired,
  cleanup,
}

pub find-put_request :
    (v : ℕ) (r : Request) (l : List (ℕ × Request)) → find_request v (put_request v r l) ≡ some r
unfolding find_request put_request
find-put_request v r [] = if_true {b = v == v} _ _ (ground arith)
find-put_request v r ((w, q) ∷ l) = elim (Bool-cases (w == v)) [
  | inl here ↦ rw here (if_true {b = w == v} _ _ here)
  | inr there ↦ rw there (if_false {b = w == v} _ _ there ∙ find-put_request v r l)
]

pub put-put_request :
    (v : ℕ) (r s : Request) (l : List (ℕ × Request))
    → put_request v s (put_request v r l) ≡ put_request v s l
unfolding put_request
put-put_request v r s [] = if_true {b = v == v} _ _ (ground arith)
put-put_request v r s ((w, q) ∷ l) = elim (Bool-cases (w == v)) [
  | inl here ↦ rw here (if_true {b = w == v} _ _ here)
  | inr there ↦
      rw there (if_false {b = w == v} _ _ there ∙ ap (◌∷◌ (w, q)) (put-put_request v r s l))
]

-- A request that was not there, put and erased.
pub erase-put_request :
    (v : ℕ) (r : Request) (l : List (ℕ × Request))
    → find_request v l ≡ none
    → erase_request v (put_request v r l) ≡ l
unfolding find_request put_request erase_request
erase-put_request v r [] h = if_true {b = v == v} _ _ (ground arith)
erase-put_request v r ((w, q) ∷ l) h = elim (Bool-cases (w == v)) [
  | inl here ↦ absurd (ground (arith, h))
  | inr there ↦
      let next : find_request v l ≡ none = sym (if_false {b = w == v} _ _ there) ∙ h in
      rw there (if_false {b = w == v} _ _ there ∙ ap (◌∷◌ (w, q)) (erase-put_request v r l next))
]

module _ (default_timeout : ℕ) where
  find-erase_expired :
      (v time : ℕ) (r : Request) (l : List (ℕ × Request))
      → find_request v l ≡ some r
      → is_expired default_timeout time r ≡ false
      → find_request v (erase_expired default_timeout time l) ≡ some r
  unfolding find_request erase_expired
  find-erase_expired v time r [] h e = h
  find-erase_expired v time r ((w, q) ∷ l) h e = elim (Bool-cases (w == v)) [
    | inl here ↦
        let same : some q ≡ some r = sym (if_true {b = w == v} _ _ here) ∙ h in
        let kept : is_expired default_timeout time q ≡ false = ap (expired_or time) same ∙ e in
        rw kept (if_true {b = w == v} _ _ here ∙ same)
    | inr there ↦
        let next : find_request v l ≡ some r = sym (if_false {b = w == v} _ _ there) ∙ h in
        elim (Bool-cases (is_expired default_timeout time q)) [
          | inl gone ↦ rw gone next
          | inr kept ↦
              rw kept (if_false {b = w == v} _ _ there ∙ find-erase_expired v time r l next e)
        ]
  ]
    where
      expired_or : ℕ → Option Request → Bool
      expired_or time none = false
      expired_or time (some q) = is_expired default_timeout time q

  fresh :
      (r : Request)
      → r.time + milliseconds_of default_timeout r.timeout < u64_mod
      → is_expired default_timeout r.time r ≡ false
  unfolding is_expired
  fresh r h =
      let early : ltb ((r.time + milliseconds_of default_timeout r.timeout) % u64_mod) r.time
          ≡ false =
        ground arith in
      rw early (ground arith)

  -- The cleanup at the time of a request leaves that request, which the handler goes on to use, in
  -- its place; if its time and timeout do not overflow.
  pub find-cleanup :
      (v : ℕ) (r : Request) (l : List (ℕ × Request))
      → r.time + milliseconds_of default_timeout r.timeout < u64_mod
      → find_request v (cleanup default_timeout r.time (put_request v r l)) ≡ some r
  unfolding cleanup
  find-cleanup v r l h = elim (Bool-cases (ltb (length (put_request v r l)) 2)) [
    | inl few ↦ rw few (find-put_request v r l)
    | inr many ↦ rw many (find-erase_expired v r.time r _ (find-put_request v r l) (fresh r h))
  ]
