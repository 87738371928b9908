-- ===== src/Tests/Scheduling.antt =====
-- Runs of 2018_CppCon/src/coro_infra.h and coro.h.
use await.Base.{
  ℕ, Bool, true, false, none, some, List, [], ◌∷◌, ◌≡◌, refl, length, replicate, ℤ, pos, negsuc,
  Outcome, arith, Returns,
}
use await.Naive.Loop.{found_count}
use await.Scheduler.{SchedulerQueue, empty_queue, push_back, try_pop_front}
use await.Scheduler.Fifo.{IsValid, contents, empty_queue-IsValid}
use await.Scheduler.Refine.{Op, push, take, run_ops, run_fifo, run_ops-run_fifo}
use await.Coro.{Task, coro_multi_lookup}
use await.Coro.Throttle.{coro_multi_lookup_lem}
use await.Coro.Overflow.{coro_multi_lookup_overflow}

abbrev table : List ℤ
table = negsuc 4 ∷ pos 0 ∷ pos 2 ∷ pos 4 ∷ pos 8 ∷ []

abbrev keys : List ℤ
keys = pos 2 ∷ pos 3 ∷ negsuc 4 ∷ pos 9 ∷ pos 8 ∷ pos 0 ∷ []

abbrev script : List (Op ℕ)
script = push (some 1) ∷ push (some 2) ∷ take ∷ push (some 3) ∷ take ∷ take ∷ take ∷ []

-- the ring about to go round
abbrev late : SchedulerQueue ℕ
late = record { head = 255; tail = 255; arr = replicate 256 none }

late-IsValid : IsValid late
late-IsValid = omega arith

run_ops-late : run_ops script late ≡ some 1 ∷ some 2 ∷ some 3 ∷ none ∷ []
unfolding run_ops push_back try_pop_front
run_ops-late = refl

run_ops-run_fifo_example : run_ops script late ≡ run_fifo script (contents late)
run_ops-run_fifo_example = run_ops-run_fifo script late late-IsValid (omega arith)

idle : IsValid (empty_queue Task) × (contents (empty_queue Task) ≡ [])
idle = empty_queue-IsValid Task

abbrev answers : Outcome (ℕ × Bool × SchedulerQueue Task)
answers = coro_multi_lookup table 20 keys 3 (empty_queue Task)

coro_multi_lookup_lem_example :
    Returns answers
      (λ r. (r.0 ≡ found_count table keys) × (r.1 ≡ false) × IsValid r.2 × (contents r.2 ≡ []))
coro_multi_lookup_lem_example =
    coro_multi_lookup_lem table 20 keys 3 (empty_queue Task) (omega arith) (omega arith)
      (omega arith) idle.0 idle.1

many : length (replicate 256 (pos 2)) ≡ 256
many = refl

coro_multi_lookup_overflow_example :
    Returns
      (coro_multi_lookup table 20 (replicate 256 (pos 2)) 256 (empty_queue Task))
      (λ r. (r.0 ≡ 0) × (r.1 ≡ true))
coro_multi_lookup_overflow_example =
    coro_multi_lookup_overflow table 20 (replicate 256 (pos 2)) 256 (empty_queue Task) (omega arith)
      many (omega arith) (omega arith) idle.0 idle.1
