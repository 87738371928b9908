-- ===== src/Gen.antt =====
-- 2016_Jax/gen.cpp with the handle of 2016_Jax/coroutine.h: a generator as a coroutine, and the range-based
-- `for` that runs it. A handle is the frame that it points to, or null; a frame is where the coroutine is
-- suspended, its locals and its promise. What the compiler's intrinsics do to a frame is written out for this
-- coroutine: resumed at its final suspension, or with no frame, it has no defined behaviour.
-- The bound of the loop is 200 in the code, and `i` stays below twice the bound, so no `int` overflows up to
-- a bound of 2^30.
pub mod Yields
pub mod Memory
pub mod Lives
pub mod Program
use await.Base.{
  ℕ, zero, suc, ◌+◌, ◌*◌, Bool, true, false, List, [], ◌∷◌, ◌++◌, ltb, if◌then◌else◌, Option, none,
  some, Outcome, done, fault, no_fuel, ◌>>=◌,
}

pub data Point : Type 0 where
  at_initial : Point
  at_yield : Point
  at_final : Point

-- the frame of `f`
pub record Frame : Type 0 where
  pub point : Point
  pub n : ℕ
  pub i : ℕ
  pub current_value : ℕ  -- of the promise

-- `f()`, up to its initial suspension, with the bound of its loop
abbrev pub f : ℕ → Frame
f n = record { point = at_initial; n = n; i = 3; current_value = 0 }

-- the test of the loop, and `co_yield`
abbrev pub loop_test : Frame → Frame
loop_test fr =
    if ltb fr.i fr.n
    then record fr { point = at_yield; current_value = fr.i }
    else record fr { point = at_final }

abbrev pub resume_at : Point → Frame → Outcome Frame
resume_at at_initial fr = done (loop_test fr)
resume_at at_yield fr = done (loop_test (record fr { i = fr.i * 2 }))
resume_at at_final fr = fault

unfoldable pub resume : Frame → Outcome Frame
resume fr = resume_at fr.point fr

-- `done()`
abbrev pub is_done : Point → Bool
is_done at_initial = false
is_done at_yield = false
is_done at_final = true

-- An iterator; the end is any with `is_end` set.
pub record Iterator : Type 0 where
  pub coro : Frame
  pub is_end : Bool

-- `operator!=` with `end()`
abbrev pub not_end : Iterator → Bool
not_end it = if it.is_end then false else true

-- `operator++`
unfoldable pub next : Iterator → Outcome Iterator
unfolding resume
next it = resume it.coro >>= λ fr. done (record { coro = fr; is_end = is_done fr.point })

unfoldable pub begin : Frame → Outcome Iterator
unfolding resume
begin fr = resume fr >>= λ fr'. done (record { coro = fr'; is_end = is_done fr'.point })

-- The `for` of `main`, with what it prints; `fuel` bounds its rounds.
unfoldable pub for_loop : ℕ → Iterator → Outcome (List ℕ × Frame)
unfolding next
for_loop zero it = no_fuel
for_loop (suc fuel) it =
    let rest = next it >>= for_loop fuel in
    if not_end it
    then (rest >>= λ r. done (it.coro.current_value ∷ r.0, r.1))
    else done ([], it.coro)

-- `main`: what it prints, and the frame that `~generator` destroys
unfoldable pub print_all : ℕ → ℕ → Outcome (List ℕ × Frame)
unfolding begin for_loop
print_all fuel n = begin (f n) >>= for_loop fuel
