-- ===== src/Scheduler/Refine.antt =====
-- The ring and a first-in first-out list, under the same operations.
use await.Base.{
  ℕ, suc, ◌+◌, ◌-◌, ◌<◌, ◌≡◌, refl, ap, ap₂, ◌∙◌, sym, Option, none, List, [], ◌∷◌, ◌++◌, length,
  subst, arith,
}
use await.Scheduler.{SchedulerQueue, push_back, try_pop_front, pop_front}
use await.Scheduler.Fifo.{
  IsValid, contents, size, length-contents, push_back-IsValid, push_back-contents, size-push_back,
  size-pop_front, pop_front-IsValid, pop_front-contents, try_pop_front_of_empty,
  try_pop_front_of_some,
}

pub data Op {ℓ} (H : Type ℓ) : Type ℓ where
  push : Option H → Op H
  take : Op H

module _ {ℓ} {H : Type ℓ} where
  -- what the calls of `try_pop_front` return, in order
  unfoldable pub run_ops : List (Op H) → SchedulerQueue H → List (Option H)
  run_ops [] q = []
  run_ops (push h ∷ ops) q = run_ops ops (push_back h q)
  run_ops (take ∷ ops) q = let (h, q') = try_pop_front q in h ∷ run_ops ops q'

  -- the same on a list
  unfoldable pub run_fifo : List (Op H) → List (Option H) → List (Option H)
  run_fifo [] l = []
  run_fifo (push h ∷ ops) l = run_fifo ops (l ++ (h ∷ []))
  run_fifo (take ∷ ops) [] = none ∷ run_fifo ops []
  run_fifo (take ∷ ops) (h ∷ l) = h ∷ run_fifo ops l

  -- At no time do more than 255 handles wait, `n` of them now.
  abbrev pub Fits : List (Op H) → ℕ → Type 0
  Fits [] n = Unit
  Fits (push h ∷ ops) n = (n < 255) × Fits ops (n + 1)
  Fits (take ∷ ops) n = Fits ops (n - 1)

  take_refines :
      (ops : List (Op H)) (q : SchedulerQueue H) (l : List (Option H))
      → IsValid q
      → contents q ≡ l
      → ((q' : SchedulerQueue H)
          → IsValid q'
          → size q' ≡ size q - 1
          → run_ops ops q' ≡ run_fifo ops (contents q'))
      → run_ops (take ∷ ops) q ≡ run_fifo (take ∷ ops) l
  unfolding run_ops run_fifo
  take_refines ops q [] valid e ih =
      let s : size q ≡ 0 = sym (length-contents q) ∙ ap length e in
      rw (try_pop_front_of_empty valid s)
        (ap (λ l. none ∷ l) (ih q valid (omega (arith, s)) ∙ ap (run_fifo ops) e))
  take_refines ops q (h ∷ l) valid e ih =
      let s : size q ≡ suc (length l) = sym (length-contents q) ∙ ap length e in
      let some_left : 0 < size q = omega (arith, s) in
      let c : (pop_front q).0 ∷ contents (pop_front q).1 ≡ h ∷ l =
        sym (pop_front-contents valid some_left) ∙ e in
      rw (try_pop_front_of_some valid some_left) (
        ap₂ ◌∷◌ (cc) (
          ih (pop_front q).1 (pop_front-IsValid valid) (size-pop_front valid some_left)
          ∙ ap (run_fifo ops) (cc)))

  -- From a valid ring, and while at most 255 handles wait, `push_back` and `try_pop_front` behave
  -- as the operations of a first-in first-out list that starts with the contents of the ring.
  pub run_ops-run_fifo :
      (ops : List (Op H)) (q : SchedulerQueue H)
      → IsValid q
      → Fits ops (size q)
      → run_ops ops q ≡ run_fifo ops (contents q)
  unfolding run_ops run_fifo
  run_ops-run_fifo [] q valid fits = refl
  run_ops-run_fifo (push h ∷ ops) q valid fits =
      run_ops-run_fifo ops (push_back h q) (push_back-IsValid h valid)
        (subst (Fits ops) (sym (size-push_back h valid fits.0)) fits.1)
      ∙ ap (run_fifo ops) (push_back-contents h valid fits.0)
  run_ops-run_fifo (take ∷ ops) q valid fits =
      take_refines ops q (contents q) valid refl
        (λ q' valid' e. run_ops-run_fifo ops q' valid' (subst (Fits ops) (sym e) fits))
