-- ===== src/Nano/Agree.antt =====
-- The three searches in nanotest, and the exit status.
use await.Base.{
  ℕ, zero, suc, ◌+◌, ◌-◌, ◌*◌, ◌/◌, ◌^◌, ◌≤◌, ◌<◌, ◌==◌, false, some, if◌then◌else◌, List, [], ◌∷◌,
  ◌≡◌, refl, ap, ◌∙◌, length, ℤ, pos, done, Returns, Returns_trans, Returns->>=, Returns→eq, to_ℕ,
  total, ltb, arith,
}
use Prim.Native.String.{String}
use await.Naive.{hits}
use await.Naive.Sorted.{naive_binary_search-hits}
use await.Scheduler.{empty_queue}
use await.Scheduler.Fifo.{empty_queue-IsValid, IsValid, contents}
use await.Naive.Loop.{found_count}
use await.Sm.Multi.Drain.{sm_multi_lookup_lem}
use await.Coro.{Task, coro_multi_lookup}
use await.Coro.Throttle.{coro_multi_lookup_lem}
use await.Nano.Exact.{length-doubles, is_double, found_count-doubles}
use await.Nano.{
  doubles, rng, State, make_state, Algo, coro, naive, sm, Queue, count_found, test_fn, sum_results,
  TestParam, parse_algo, parse_size, atoi, run_test, main,
}

count_found_lem :
    (v keys : List ℤ) (found : ℕ) → count_found v keys found ≡ done (found + found_count v keys)
unfolding count_found
count_found_lem v [] found = ap done (omega arith)
count_found_lem v (key ∷ keys) found =
    rw (naive_binary_search-hits v key 0 (length v) (omega arith) (omega arith))
      (count_found_lem v keys _ ∙ ap done counted)
  where
    whole : length v - 0 ≡ length v
    whole = omega arith

    counted :
        (if hits v key 0 (length v - 0) then found + 1 else found) + found_count v keys
        ≡ found + (to_ℕ (hits v key 0 (length v)) + found_count v keys)
    counted = rw whole (ground arith)

-- What holds of the global queue between two runs.
record IsIdle (queue : Queue) : Type 0 where
  valid : IsValid queue
  empty : contents queue ≡ []

module _ (s : State) (fuel : ℕ) (small : length s.v < 2 ^ 64) (some_stream : 0 < s.streams)
    (few : s.streams ≤ 255) (enough : s.streams * (length s.v + 1) < fuel) where
  -- Each of `testNaive`, `testSm` and `testCoro` counts the keys that the search of naive.h finds.
  test_fn_lem :
      (algo : Algo) (queue : Queue)
      → IsIdle queue
      → Returns (test_fn fuel algo s queue) (λ r. (r.0 ≡ found_count s.v s.lookups) × IsIdle r.1)
  unfolding test_fn
  test_fn_lem naive queue idle = rw (count_found_lem s.v s.lookups 0) (omega arith, idle)
  test_fn_lem sm queue idle =
      rw (sm_multi_lookup_lem s.v small fuel s.lookups s.streams some_stream (grind arith))
        (refl, idle)
  test_fn_lem coro queue idle =
      Returns->>= _ (coro_multi_lookup s.v fuel s.lookups s.streams queue) _
        (coro_multi_lookup_lem s.v fuel s.lookups s.streams queue some_stream few enough idle.valid
          idle.empty)
        (λ r h. (h.0, record { valid = h.2; empty = h.3 }))

  sum_results_lem :
      (algo : Algo) (repeat sum : ℕ) (queue : Queue)
      → IsIdle queue
      → Returns
          (sum_results fuel algo s repeat sum queue)
          (λ r. r ≡ sum + repeat * found_count s.v s.lookups)
  unfolding sum_results
  sum_results_lem algo zero sum queue idle = omega arith
  sum_results_lem algo (suc repeat) sum queue idle =
      Returns->>= _ (test_fn fuel algo s queue) _ (test_fn_lem algo queue idle) (λ r h.
        Returns_trans _ _ _ (sum_results_lem algo repeat (sum + r.0) r.1 h.1) (omega (arith, h.0)))

abbrev pub status : ℕ → ℕ → ℕ
status sum expected = if sum == expected then 0 else 1

run_test_lem :
    (fuel : ℕ) (sample : ℕ → ℤ) (algo : Algo) (p : TestParam) (streams : ℕ)
    → p.size_in_bytes < 2 ^ 64
    → 0 < streams
    → streams ≤ 255
    → streams * (p.size_in_bytes / 4 + 1) < fuel
    → run_test fuel sample algo p streams
      ≡ done (
          status
            (p.repeat * found_count (doubles 0 (p.size_in_bytes / 4)) (rng sample 0 p.lookup_size))
            p.expected_result)
unfolding run_test
run_test_lem fuel sample algo p streams small some_stream few enough =
    rw
      (Returns→eq _ _ (
        sum_results_lem s fuel small' some_stream few enough' algo s.repeat 0 (empty_queue Task)
          idle))
      (ap (λ sum. done (status sum p.expected_result)) (omega arith))
  where
    s : State
    s = make_state sample p.size_in_bytes p.lookup_size p.repeat streams

    cells : length s.v ≡ p.size_in_bytes / 4
    cells = length-doubles 0 (p.size_in_bytes / 4)

    small' : length s.v < 2 ^ 64
    small' = omega (arith, cells)

    enough' : s.streams * (length s.v + 1) < fuel
    enough' = rw cells enough

    idle : IsIdle (empty_queue Task)
    idle = let (valid, empty) = empty_queue-IsValid Task in record { valid = valid; empty = empty }

fits : (arg : String) (p : TestParam) → parse_size arg ≡ some p → p.size_in_bytes < 2 ^ 64
unfolding parse_size
fits arg p e = ground arith

-- With the name of any of the three algorithms, a valid size, 1 to 255 streams and the given fuel,
-- `main` ends: its status is 0 if `repeat` times the number of samples that are even and below the
-- end of the vector is the expected result, and 1 if it is not.
pub main_lem :
    (fuel : ℕ) (sample : ℕ → ℤ) (algo_arg size_arg streams_arg : String) (algo : Algo)
    (p : TestParam) (streams : ℕ)
    → parse_algo algo_arg ≡ some algo
    → parse_size size_arg ≡ some p
    → atoi streams_arg ≡ pos streams
    → 0 < streams
    → streams ≤ 255
    → streams * (p.size_in_bytes / 4 + 1) < fuel
    → main fuel sample (algo_arg ∷ size_arg ∷ streams_arg ∷ [])
      ≡ done (
          status
            (p.repeat
              * total
                  (λ key. to_ℕ (is_double (p.size_in_bytes / 4) key))
                  (rng sample 0 p.lookup_size))
            p.expected_result)
unfolding main
main_lem fuel sample algo_arg size_arg streams_arg algo p streams ea es en some_stream few enough =
    rw (ea, es, en, lt, main)
      (run_test_lem fuel sample algo p streams (fits size_arg p es) some_stream few enough
        ∙ ap (λ n. done (status (p.repeat * n) p.expected_result))
            (found_count-doubles (p.size_in_bytes / 4) (rng sample 0 p.lookup_size)))
  where
    lt : ltb streams 1 ≡ false
    lt = ground arith
