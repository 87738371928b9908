-- ===== src/Over.antt =====
-- `repost` of 2017_CppCon/live/over2.cpp and over1.cpp: a coroutine that posts itself to an `io_context` a
-- number of times, with the awaiter of over2.cpp, and with a Boost future in over1.cpp. The context is the
-- list of the handlers that were posted, which `run` takes from the front until there is none; one
-- coroutine exists, so that a handler is what it does: to resume it.
pub mod Repost
pub mod Future
pub mod Same
use await.Base.{
  ℕ, zero, suc, ◌+◌, ◌≡◌, Bool, true, false, List, [], ◌∷◌, ◌++◌, Option, none, some, ℤ, pos,
  negsuc, Outcome, done, fault, no_fuel, if◌then◌else◌,
}

pub data Point : Type 0 where
  at_post : Point
  finished : Point

-- the frame: the local `n`
pub record Frame : Type 0 where
  pub n : ℤ
  pub point : Point

pub data Handler : Type 0 where
  resumes : Handler

-- `ran` counts the handlers that `run` has called.
pub record World : Type 0 where
  pub frame : Frame
  pub context : List Handler
  pub ran : ℕ

abbrev pub post : Handler → World → World
post h w = record w { context = w.context ++ (h ∷ []) }

-- `n--`, which is at the least value of `int` no defined operation and never reached from there
abbrev pub decrement : ℤ → ℤ
decrement (pos zero) = negsuc 0
decrement (pos (suc n)) = pos n
decrement (negsuc n) = negsuc (n + 1)

abbrev pub is_positive : ℤ → Bool
is_positive (pos zero) = false
is_positive (pos (suc n)) = true
is_positive (negsuc n) = false

-- the test of the loop, and the body up to its `co_await`
abbrev pub loop : ℤ → World → World
loop n w =
    if is_positive n
    then post resumes (record w { frame = record { n = decrement n; point = at_post } })
    else record w { frame = record { n = decrement n; point = finished } }

-- `repost` up to its first suspension
unfoldable pub repost : ℤ → World
repost n = loop n (record { frame = record { n = n; point = at_post }; context = []; ran = 0 })

-- to resume a coroutine that has ended is no defined operation
abbrev pub resume_at : Point → World → Outcome World
resume_at at_post w = done (loop w.frame.n w)
resume_at finished w = fault

-- `io_context::run`
abbrev pub call : Handler → World → Outcome World
call resumes w = resume_at w.frame.point (record w { ran = w.ran + 1 })

abbrev pub step_of : List Handler → World → Option (Outcome World)
step_of [] w = none
step_of (h ∷ hs) w = some (call h (record w { context = hs }))

unfoldable pub run : ℕ → World → Outcome World
run zero w = no_fuel
run (suc fuel) w = elim (step_of w.context w) [
  | none ↦ done w
  | some (done w') ↦ run fuel w'
  | some fault ↦ fault
  | some no_fuel ↦ no_fuel
]

-- `main`
unfoldable pub over2_main : ℕ → ℤ → Outcome World
unfolding repost run
over2_main fuel n = run fuel (repost n)
