-- ===== src/Task.antt =====
-- 2016_Jax/awaithe.cpp: the coroutine type `coro`, where one coroutine awaits another, and `main`. A body is
-- what a coroutine does from one place on, a frame is a number, and a coroutine that is suspended is what
-- it does when it is resumed. What `operator new` and `delete` print is left out.
pub mod Runs
use await.Base.{
  ℕ, suc, ◌+◌, Bool, true, false, ◌||◌, List, [], ◌∷◌, ◌++◌, Option, none, some, ◌==◌,
  if◌then◌else◌,
}
use Prim.Native.String.{String}

pub data Body : Type 0 where
  returns : Body
  says : (line : String) → (rest : Body) → Body
  goes_on : (rest : Body) → Body  -- `co_await suspend_never{}`
  awaits : (callee rest : Body) → Body  -- `co_await` of a call

-- What was printed, the number of frames that were made, those at their final suspension, those that were
-- destroyed, and how often one was destroyed that was not at its final suspension.
pub record World : Type 0 where
  pub printed : List String
  pub made : ℕ
  pub at_final : List ℕ
  pub destroyed : List ℕ
  pub bad : ℕ

abbrev pub say : String → World → World
say line w = record w { printed = w.printed ++ (line ∷ []) }

-- a call of a coroutine: its frame is suspended at once
abbrev pub create : World → World
create w = record w { made = w.made + 1 }

abbrev pub suspend_last : ℕ → World → World
suspend_last frame w = record w { at_final = frame ∷ w.at_final }

abbrev pub holds : ℕ → List ℕ → Bool
holds x [] = false
holds x (y ∷ ys) = (y == x) || holds x ys

-- `~coro`
abbrev pub destroy_frame : ℕ → World → World
destroy_frame frame w =
    if holds frame w.at_final
    then record w { destroyed = frame ∷ w.destroyed }
    else record w { destroyed = frame ∷ w.destroyed; bad = w.bad + 1 }

-- `await_suspend` of the final awaiter, by the `waiter` of the promise
abbrev pub final_suspend : Option (World → World) → World → World
final_suspend none w = say "no waiter\n\n" w
final_suspend (some waiter) w = waiter (say "has waiter, resuming...\n" w)

-- `me.resume()`. `await_suspend` of `coro` makes the coroutine that awaits the waiter of the new one, and
-- resumes that; the `coro` is destroyed at the end of the expression.
unfoldable pub resume : Body → ℕ → Option (World → World) → World → World
resume returns frame waiter w = final_suspend waiter (suspend_last frame w)
resume (says line rest) frame waiter w = resume rest frame waiter (say line w)
resume (goes_on rest) frame waiter w = resume rest frame waiter w
resume (awaits callee rest) frame waiter w =
    resume callee w.made (some (λ w'. resume rest frame waiter (destroy_frame w.made w')))
      (create w)

abbrev pub g : Body
g = says "g running\n" (goes_on returns)

abbrev pub f : Body
f = says "f started\n" (awaits g (says "f resumed\n" returns))

-- `main`, for any coroutine in the place of `f`
unfoldable pub main_of : Body → World
unfolding resume
main_of body =
    let w : World = record { printed = []; made = 0; at_final = []; destroyed = []; bad = 0 } in
    destroy_frame 0 (say "post-resume" (resume body 0 none (create w)))

unfoldable pub task_main : World
unfolding main_of
task_main = main_of f
