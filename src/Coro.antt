-- ===== src/Coro.antt =====
-- 2018_CppCon/src/coro.h and the rest of coro_infra.h that it runs on: `root_task`, `throttler` and
-- the awaitable of `prefetch`. A suspended coroutine is the values that its frame keeps: the point
-- where it stands, its locals, and whether its promise has an owner. Its handle has one owner at a
-- time, a cell of the queue or the code that resumes it, so a handle is modelled by the frame itself.
-- Iterators are indices; `ptrdiff_t` differences are never negative here.
pub mod Step
pub mod Resume
pub mod Balance
pub mod Throttle
pub mod Overflow
use await.Base.{
  ℕ, zero, suc, ◌+◌, ◌-◌, ◌/◌, ◌%◌, ◌^◌, Bool, true, false, not, none, some, List, [], ◌∷◌, ltb,
  ◌==◌, if◌then◌else◌, get_elem?, length, ℤ, ltb_ℤ, eqb_ℤ, Outcome, done, fault, no_fuel, ◌>>=◌,
}
use await.Scheduler.{SchedulerQueue, push_back, pop_front, try_pop_front}

-- where a `CoroBinarySearch` is suspended, with the locals that are live there
pub data Point : Type 0 where
  initial : (first last : ℕ) → Point  -- before the body
  at_prefetch : (first len half middle : ℕ) → Point  -- in the `co_await` of the loop

pub record Task : Type 0 where
  pub val : ℤ
  pub owned : Bool  -- `promise().owner` is set
  pub point : Point

-- How a resumption ends: suspended again, or returned, having called `on_found` or `on_not_found`.
pub data Pause : Type 0 where
  suspends : Task → Pause
  returns : Bool → Pause

-- the head of the `while` up to the next suspension
abbrev pub loop_head : Task → ℕ → ℕ → Pause
loop_head t first len =
    if ltb 0 len
    then suspends (record t { point = at_prefetch first len (len / 2) (first + len / 2) })
    else returns false

-- the rest of the loop body, once the cell is read
abbrev pub after_read : ℤ → Task → ℕ → ℕ → ℕ → ℕ → Pause
after_read x t first len half middle =
    let less = ltb_ℤ x t.val in
    if eqb_ℤ x t.val
    then returns true
    else loop_head t (if less then middle + 1 else first) (if less then len - half - 1 else half)

-- from the call of `CoroBinarySearch` to its initial suspension
abbrev pub coro_binary_search : ℕ → ℕ → ℤ → Task
coro_binary_search first last val = record { val = val; owned = false; point = initial first last }

pub record World : Type 0 where
  pub queue : SchedulerQueue Task  -- the global `scheduler`
  pub limit : ℕ  -- of the `throttler`
  pub found_count : ℕ
  pub not_found_count : ℕ

-- `on_found` or `on_not_found`, then `return_void` and `on_task_done`
abbrev pub return_void : Task → Bool → World → Outcome World
return_void t found w =
    if t.owned
    then done (record w {
      limit = (w.limit + 1) % 2 ^ 32;
      found_count = if found then w.found_count + 1 else w.found_count;
      not_found_count = if found then w.not_found_count else w.not_found_count + 1;
    })
    else fault

module _ (v : List ℤ) where
  advance : Task → Point → Outcome Pause
  advance t (initial first last) = done (loop_head t first (last - first))
  advance t (at_prefetch first len half middle) = elim (get_elem? v middle) [
    | none ↦ fault
    | some x ↦ done (after_read x t first len half middle)
  ]

  -- the body of `CoroBinarySearch` from one suspension to the next
  unfoldable pub coro_step : Task → Outcome Pause
  unfolding advance
  coro_step t = advance t t.point

  -- `h.resume()`. A task that suspends goes to the back of the queue, and control passes straight
  -- to the task at its front (`await_suspend`); a task that returns gives control back.
  unfoldable pub resume : ℕ → Task → World → Outcome World
  unfolding coro_step
  resume zero t w = no_fuel
  resume (suc fuel) t w = elim (coro_step t) [
    | done (suspends t') ↦
        let q = push_back (some t') w.queue in
        elim (pop_front q).0 [
          | none ↦ fault
          | some next ↦ resume fuel next (record w { queue = (pop_front q).1 })
        ]
    | done (returns found) ↦ return_void t found w
    | fault ↦ fault
    | no_fuel ↦ no_fuel
  ]

  -- `scheduler.pop_front().resume()`
  unfoldable pub resume_front : ℕ → World → Outcome World
  unfolding resume
  resume_front fuel w = elim (pop_front w.queue).0 [
    | none ↦ fault
    | some t ↦ resume fuel t (record w { queue = (pop_front w.queue).1 })
  ]

  -- `throttler::spawn`
  unfoldable pub spawn : ℕ → Task → World → Outcome World
  unfolding resume_front
  spawn fuel t w = (if w.limit == 0 then resume_front fuel w else done w) >>= λ w'.
      done (record w' {
        queue = push_back (some (record t { owned = true })) w'.queue;
        limit = (w'.limit + 2 ^ 32 - 1) % 2 ^ 32;
      })

  -- `scheduler_queue::run`, with fuel for its loop and for each `resume`
  unfoldable pub run : ℕ → ℕ → World → Outcome World
  unfolding resume
  run zero fuel w = no_fuel
  run (suc rounds) fuel w =
      let (h, q) = try_pop_front w.queue in
      elim h [
        | none ↦ done (record w { queue = q })
        | some t ↦ resume fuel t (record w { queue = q }) >>= run rounds fuel
      ]

  unfoldable pub spawn_all : ℕ → List ℤ → World → Outcome World
  unfolding spawn
  spawn_all fuel [] w = done w
  spawn_all fuel (key ∷ keys) w =
      spawn fuel (coro_binary_search 0 (length v) key) w >>= spawn_all fuel keys

  -- `CoroMultiLookup`: the value returned, whether it prints BUG, and the global queue that it
  -- leaves after the destructor of the `throttler` has run it once more
  unfoldable pub coro_multi_lookup :
      ℕ → List ℤ → ℕ → SchedulerQueue Task → Outcome (ℕ × Bool × SchedulerQueue Task)
  unfolding spawn_all run
  coro_multi_lookup fuel lookups streams queue =
      spawn_all fuel lookups
        (record { queue = queue; limit = streams; found_count = 0; not_found_count = 0 })
      >>= run fuel fuel
      >>= λ w. run fuel fuel w >>= λ w'.
          done (w.found_count, not (w.found_count + w.not_found_count == length lookups), w'.queue)
