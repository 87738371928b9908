-- ===== src/Over/Same.antt =====
-- The programs of over1.cpp and over2.cpp, on the same count.
use await.Base.{
  ℕ, zero, suc, ◌+◌, ◌<◌, ◌≡◌, refl, sym, subst, Returns, pos_part, pos_part, Bool, false, [], map,
  ℤ, pos, negsuc, Outcome, done, fault, no_fuel,
}
use await.Over.{Frame, World, resumes, run, loop, at_post, finished, over2_main, repost}
use await.Over.Future.{FutureWorld, future_loop, run_future, over1_main, repost_future}
use await.Over.Repost.{over2_main-Returns}

-- what is left when the promises are forgotten
abbrev pub forget : FutureWorld → World
forget w = record { frame = w.frame; context = map (λ h. resumes) w.context; ran = w.ran }

abbrev pub forget_outcome : Outcome FutureWorld → Outcome World
forget_outcome (done w) = done (forget w)
forget_outcome fault = fault
forget_outcome no_fuel = no_fuel

loop-Same :
    (fuel : ℕ) (n : ℤ) (frame : Frame) (continued : Bool) (ran : ℕ)
    → forget_outcome (
        run_future fuel (
          future_loop n (record { frame = frame; context = []; continued = continued; ran = ran })))
      ≡ run fuel (loop n (record { frame = frame; context = []; ran = ran }))
unfolding run run_future
loop-Same zero n frame continued ran = refl
loop-Same (suc fuel) (pos zero) frame continued ran = refl
loop-Same (suc fuel) (negsuc n) frame continued ran = refl
loop-Same (suc fuel) (pos (suc n)) frame continued ran =
    loop-Same fuel (pos n) (record { n = pos n; point = at_post }) false (ran + 1)

pub over1_main-over2_main :
    (fuel : ℕ) (n : ℤ) → forget_outcome (over1_main fuel n) ≡ over2_main fuel n
unfolding over1_main over2_main repost repost_future
over1_main-over2_main fuel n = loop-Same fuel n (record { n = n; point = at_post }) false 0

forgotten-Returns :
    (P : World → Type 0) (r : Outcome FutureWorld)
    → Returns (forget_outcome r) P
    → Returns r (λ w. P (forget w))
forgotten-Returns P (done w) h = h
forgotten-Returns P fault h = h
forgotten-Returns P no_fuel h = h

-- With more fuel than the count `n`, the programs of over1.cpp, with its futures, and of over2.cpp,
-- with its own awaiter, end: the coroutine has finished, no handler is left in the context, and
-- `run` has called as many handlers as `n` says, none if `n` is negative; and with the promises
-- forgotten both end in the same state.
pub mains-Return :
    (fuel : ℕ) (n : ℤ)
    → pos_part n < fuel
    → Returns
        (over2_main fuel n)
        (λ w. (w.frame.point ≡ finished) × (w.context ≡ []) × (w.ran ≡ pos_part n))
      × Returns
          (over1_main fuel n)
          (λ w. (w.frame.point ≡ finished) × ((forget w).context ≡ []) × (w.ran ≡ pos_part n))
      × (forget_outcome (over1_main fuel n) ≡ over2_main fuel n)
mains-Return fuel n less =
    let same = over1_main-over2_main fuel n in
    let ended = over2_main-Returns fuel n less in
    let Ended : World → Type 0 =
      (λ w. (w.frame.point ≡ finished) × (w.context ≡ []) × (w.ran ≡ pos_part n)) in
    (
      ended,
      forgotten-Returns Ended (over1_main fuel n) (subst (λ r. Returns r Ended) (sym same) ended),
      same,
    )
