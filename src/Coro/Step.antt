-- ===== src/Coro/Step.antt =====
-- What one resumption of a `CoroBinarySearch` does, in terms of the search of naive.h.
use await.Base.{
  ℕ, suc, ◌+◌, ◌-◌, ◌/◌, ◌≤◌, ◌<◌, Bool, true, List, ◌≡◌, get_elem?-eq-get_or, length, ℤ, pos, done,
  arith, refl, subst, ap, ◌∙◌,
}
use await.Naive.{hits}
use await.Naive.Loop.{◌!◌, hits_round, hits-zero}
use await.Coro.{
  Task, Point, initial, at_prefetch, Pause, suspends, returns, loop_head, after_read, advance,
  coro_step,
}

module _ (v : List ℤ) where
  -- the answer that a task is on its way to
  abbrev answer_at : ℤ → Point → Bool
  answer_at key (initial first last) = hits v key first (last - first)
  answer_at key (at_prefetch first len half middle) = hits v key first len

  abbrev pub answer : Task → Bool
  answer t = answer_at t.val t.point

  -- what is left to search, with one more for a task that has not started
  abbrev pub weight_at : Point → ℕ
  weight_at (initial first last) = suc (last - first)
  weight_at (at_prefetch first len half middle) = len

  abbrev pub weight : Task → ℕ
  weight t = weight_at t.point

  abbrev pub InRange : Point → Type 0
  InRange (initial first last) = (first ≤ last) × (last ≤ length v)
  InRange (at_prefetch first len half middle) =
      (0 < len) × (half ≡ len / 2) × (middle ≡ first + half) × (first + len ≤ length v)

  -- A task that may be resumed: it has an owner, and its locals lie in the vector.
  pub record IsLive (t : Task) : Type 0 where
    pub owned : t.owned ≡ true
    pub in_range : InRange t.point

  -- What one resumption promises: a task that is live again, with the same answer and less left to
  -- search; or the answer itself.
  abbrev pub Steps : Task → Pause → Type 0
  Steps t (suspends t') = IsLive t' × (answer t' ≡ answer t) × (weight t' < weight t)
  Steps t (returns found) = found ≡ answer t

  loop_head-Steps :
      (t : Task) (first len : ℕ)
      → t.owned ≡ true
      → first + len ≤ length v
      → hits v t.val first len ≡ answer t
      → len < weight t
      → Steps t (loop_head t first len)
  loop_head-Steps t first len owned inside same less = ground (arith, hits-zero v t.val first)

  after_read-Steps :
      (t : Task) (first len half middle : ℕ)
      → t.point ≡ at_prefetch first len half middle
      → t.owned ≡ true
      → InRange (at_prefetch first len half middle)
      → Steps t (after_read (v ! middle) t first len half middle)
  after_read-Steps t first len half middle e owned r = ground (
    arith,
    hits_round v t.val first len,
    loop_head-Steps t (middle + 1) (len - half - 1),
    loop_head-Steps t first half,
  )

  step_at :
      (t : Task) (p : Point)
      → t.point ≡ p
      → IsLive t
      → (out : Pause) × (coro_step v t ≡ done out) × Steps t out
  unfolding coro_step
  step_at t (initial first last) e live =
      let (ordered, inside) = subst InRange e live.in_range in
      (
        loop_head t first (last - first),
        rw (e, coro_step),
        loop_head-Steps t first (last - first) live.owned (omega arith) (rw e) (rw e (omega arith)),
      )
  step_at t (at_prefetch first len half middle) e live = (
    after_read (v ! middle) t first len half middle,
    ap (advance v t) e ∙ rw (get_elem?-eq-get_or v middle (pos 0) (omega (arith, r)), advance),
    after_read-Steps t first len half middle e live.owned r,
  )
    where
      r : InRange (at_prefetch first len half middle)
      r = subst InRange e live.in_range

  -- A live task can be resumed with no read outside the vector, and keeps the promise of `Steps`.
  pub coro_step-Steps :
      (t : Task) → IsLive t → (out : Pause) × (coro_step v t ≡ done out) × Steps t out
  coro_step-Steps t live = step_at t t.point refl live
