-- ===== src/Over/Future.antt =====
-- `repost` of 2017_CppCon/live/over1.cpp: `post` gives a Boost future, and its handler sets the promise.
-- `post` never runs a handler itself and one thread runs the context, so that the future is not ready when
-- the coroutine asks, and the continuation that it leaves with the future resumes it.
use await.Base.{
  ℕ, zero, suc, ◌+◌, Bool, true, false, List, [], ◌∷◌, ◌++◌, Option, none, some, ℤ, Outcome, done,
  fault, no_fuel, if◌then◌else◌,
}
use await.Over.{Frame, Point, at_post, finished, decrement, is_positive}

pub data PromiseHandler : Type 0 where
  sets_value : PromiseHandler

-- `continued` says whether the future of the last `post` has a continuation.
pub record FutureWorld : Type 0 where
  pub frame : Frame
  pub context : List PromiseHandler
  pub continued : Bool
  pub ran : ℕ

-- `post(ex, use_boost_future)`: a new promise, whose future nobody waits for yet
abbrev pub post_promise : FutureWorld → FutureWorld
post_promise w = record w { context = w.context ++ (sets_value ∷ []); continued = false }

-- `await_suspend`
abbrev pub then_resume : FutureWorld → FutureWorld
then_resume w = record w { continued = true }

abbrev pub future_loop : ℤ → FutureWorld → FutureWorld
future_loop n w =
    if is_positive n
    then then_resume
        (post_promise (record w { frame = record { n = decrement n; point = at_post } }))
    else record w { frame = record { n = decrement n; point = finished } }

unfoldable pub repost_future : ℤ → FutureWorld
repost_future n =
    future_loop n (record {
      frame = record { n = n; point = at_post };
      context = [];
      continued = false;
      ran = 0;
    })

abbrev pub future_resume_at : Point → FutureWorld → Outcome FutureWorld
future_resume_at at_post w = done (future_loop w.frame.n w)
future_resume_at finished w = fault

-- `p.set_value()`, with the continuation if there is one
abbrev pub set_value : FutureWorld → Outcome FutureWorld
set_value w =
    if w.continued then future_resume_at w.frame.point (record w { continued = false }) else done w

abbrev pub future_step : List PromiseHandler → FutureWorld → Option (Outcome FutureWorld)
future_step [] w = none
future_step (h ∷ hs) w = some (set_value (record w { context = hs; ran = w.ran + 1 }))

unfoldable pub run_future : ℕ → FutureWorld → Outcome FutureWorld
run_future zero w = no_fuel
run_future (suc fuel) w = elim (future_step w.context w) [
  | none ↦ done w
  | some (done w') ↦ run_future fuel w'
  | some fault ↦ fault
  | some no_fuel ↦ no_fuel
]

unfoldable pub over1_main : ℕ → ℤ → Outcome FutureWorld
unfolding repost_future run_future
over1_main fuel n = run_future fuel (repost_future n)
