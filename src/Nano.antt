-- ===== src/Nano.antt =====
-- 2018_CppCon/src/nanotest.cpp and rng.h: the driver that times the three searches.
-- Printing and timing are left out. What `std::mt19937_64` and `std::uniform_int_distribution` draw
-- is the parameter `sample`: the i-th number drawn. Counts and sums are natural numbers: they stay
-- below `repeat * LookupSize`, under 2^32 for every size that `main` accepts.
pub mod Exact
pub mod Agree
use await.Base.{
  ℕ, zero, suc, ◌+◌, ◌-◌, ◌*◌, ◌/◌, ◌≤◌, ◌<◌, Bool, true, false, ◌&&◌, ◌||◌, Option, none, some,
  List, [], ◌∷◌, ltb, leb, ◌==◌, if◌then◌else◌, length, ℤ, pos, negsuc, Outcome, done, fault,
  no_fuel, ◌>>=◌,
}
use Prim.Native.String.{String}
use Prim.Native.Char.{code}
use text.Mathlib.Text.{◌==◌ as str_eq}
use await.Naive.{naive_binary_search}
use await.Scheduler.{SchedulerQueue, empty_queue}
use await.Sm.Multi.{sm_multi_lookup}
use await.Coro.{Task, coro_multi_lookup}

-- the numbers that an `rng` yields between `begin()` and `end()`, from the i-th draw on
abbrev pub rng : (ℕ → ℤ) → ℕ → ℕ → List ℤ
rng sample i zero = []
rng sample i (suc count) = sample i ∷ rng sample (suc i) count

-- `for (int i = 0; i < count; ++i) v.push_back(i + i);`, from `i` on
abbrev pub doubles : ℕ → ℕ → List ℤ
doubles i zero = []
doubles i (suc count) = pos (i + i) ∷ doubles (suc i) count

pub record State : Type 0 where
  pub v : List ℤ
  pub lookups : List ℤ
  pub repeat : ℕ
  pub streams : ℕ

-- `State::State` and `start`
unfoldable pub make_state : (ℕ → ℤ) → ℕ → ℕ → ℕ → ℕ → State
make_state sample byte_count lookup_count repeat streams = record {
  v = doubles 0 (byte_count / 4);
  lookups = rng sample 0 lookup_count;
  repeat = repeat;
  streams = streams;
}

pub data Algo : Type 0 where
  coro naive sm : Algo

abbrev pub Queue : Type 0
Queue = SchedulerQueue Task

-- the loop of `testNaive`
unfoldable pub count_found : List ℤ → List ℤ → ℕ → Outcome ℕ
count_found v [] found = done found
count_found v (key ∷ keys) found = naive_binary_search v key 0 (length v) >>= λ hit.
    count_found v keys (if hit then found + 1 else found)

-- `(*testFn)(s)`; the global `scheduler` goes through
unfoldable pub test_fn : ℕ → Algo → State → Queue → Outcome (ℕ × Queue)
unfolding count_found
test_fn fuel naive s queue = count_found s.v s.lookups 0 >>= λ found. done (found, queue)
test_fn fuel sm s queue =
    sm_multi_lookup s.v fuel s.lookups s.streams >>= λ found. done (found, queue)
test_fn fuel coro s queue =
    coro_multi_lookup s.v fuel s.lookups s.streams queue >>= λ r. done (r.0, r.2)

-- `while (repeat-- > 0)`
unfoldable pub sum_results : ℕ → Algo → State → ℕ → ℕ → Queue → Outcome ℕ
unfolding test_fn
sum_results fuel algo s zero sum queue = done sum
sum_results fuel algo s (suc repeat) sum queue =
    test_fn fuel algo s queue >>= λ r. sum_results fuel algo s repeat (sum + r.0) r.1

pub record TestParam : Type 0 where
  pub size_in_bytes : ℕ
  pub lookup_size : ℕ
  pub repeat : ℕ
  pub expected_result : ℕ

unfoldable pub parse_algo : String → Option Algo
parse_algo arg =
    if str_eq arg "coro"
    then some coro
    else if str_eq arg "naive"
    then some naive
    else if str_eq arg "sm"
    then some sm
    else none

abbrev param : ℕ → ℕ → ℕ → ℕ → Option TestParam
param size lookups repeat expected = some (record {
  size_in_bytes = size;
  lookup_size = lookups;
  repeat = repeat;
  expected_result = expected;
})

unfoldable pub parse_size : String → Option TestParam
parse_size arg =
    if str_eq arg "quick"
    then param (16 * 1024) 1024 1 505
    else if str_eq arg "l1"
    then param (16 * 1024) 1024 10000 5050000
    else if str_eq arg "l2"
    then param (200 * 1024) (1024 * 1024) 50 26225050
    else if str_eq arg "l3"
    then param (6 * 1024 * 1024) (1024 * 1024) 50 26215900
    else if str_eq arg "big"
    then param (256 * 1024 * 1024) (1024 * 1024) 5 2624940
    else none

-- `atoi` of the C library, within the range of `int`: white space, a sign, digits
abbrev pub digits_of : ℕ → String → ℕ
digits_of acc String.[] = acc
digits_of acc (String.◌∷◌ c s) =
    let rest = digits_of (acc * 10 + (code c - b'0')) s in
    if leb b'0' (code c) && leb (code c) b'9' then rest else acc

abbrev negate : ℕ → ℤ
negate zero = pos 0
negate (suc n) = negsuc n

unfoldable pub atoi : String → ℤ
atoi String.[] = pos 0
atoi (String.◌∷◌ c s) =
    let skipped = atoi s in
    if code c == b'-'
    then negate (digits_of 0 s)
    else if code c == b'+'
    then pos (digits_of 0 s)
    else if code c == 32 || (leb 9 (code c) && leb (code c) 13)
    then skipped
    else pos (digits_of 0 (String.◌∷◌ c s))

-- the rest of `main`, with its arguments read
unfoldable pub run_test : ℕ → (ℕ → ℤ) → Algo → TestParam → ℕ → Outcome ℕ
unfolding sum_results make_state
run_test fuel sample algo p streams =
    let s = make_state sample p.size_in_bytes p.lookup_size p.repeat streams in
    sum_results fuel algo s s.repeat 0 (empty_queue Task) >>= λ sum.
    done (if sum == p.expected_result then 0 else 1)

-- `main`: the arguments after the program's name, and the exit status
unfoldable pub main : ℕ → (ℕ → ℤ) → List String → Outcome ℕ
main fuel sample (algo_arg ∷ size_arg ∷ streams_arg ∷ []) = elim (parse_algo algo_arg) [
  | none ↦ done 1
  | some algo ↦ elim (parse_size size_arg) [
    | none ↦ done 1
    | some p ↦ elim (atoi streams_arg) [
      | negsuc n ↦ done 1
      | pos streams ↦ if ltb streams 1 then done 1 else run_test fuel sample algo p streams
    ]
  ]
]
main fuel sample _ = done 1
