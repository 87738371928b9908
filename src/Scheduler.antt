-- ===== src/Scheduler.antt =====
-- `scheduler_queue` of 2018_CppCon/src/coro_infra.h: a ring of 256 coroutine handles.
-- A handle is any value, and `none` is the null handle. `uint32_t` addition is written out.
pub mod Fifo
pub mod Refine
use await.Base.{ℕ, ◌+◌, ◌%◌, ◌^◌, Option, none, List, ◌==◌, if◌then◌else◌, get_or, set, replicate}

-- `N`
abbrev pub slots : ℕ
slots = 256

pub record SchedulerQueue {ℓ} (H : Type ℓ) : Type ℓ where
  pub head : ℕ
  pub tail : ℕ
  pub arr : List (Option H)

-- `(i + 1) % N`
abbrev pub after : ℕ → ℕ
after i = (i + 1) % 2 ^ 32 % slots

module _ {ℓ} {H : Type ℓ} where
  unfoldable pub push_back : Option H → SchedulerQueue H → SchedulerQueue H
  push_back h q = record q { arr = set q.arr q.head h; head = after q.head }

  unfoldable pub pop_front : SchedulerQueue H → Option H × SchedulerQueue H
  pop_front q = (get_or q.arr q.tail none, record q { tail = after q.tail })

  unfoldable pub try_pop_front : SchedulerQueue H → Option H × SchedulerQueue H
  unfolding pop_front
  try_pop_front q = if q.head == q.tail then (none, q) else pop_front q

-- the queue as it is at the start of the program
unfoldable pub empty_queue {ℓ} : (H : Type ℓ) → SchedulerQueue H
empty_queue H = record { head = 0; tail = 0; arr = replicate slots none }
