-- ===== src/Tests/Servers.antt =====
-- Runs of the coroutine servers of 2017_CppCon/live, and of the main programs.
use await.Base.{
  ℕ, ◌≡◌, refl, true, false, List, [], ◌∷◌, Option, none, some, pos, Returns, arith, Bool,
}
use Prim.Native.String.{String}
use await.Hard
use await.Easy.Futures.{BoostFutures}
use await.Hard2
use await.Hard2.Accepts.{Served, run_hard2, servers-Served, Accepts}
use await.Over
use await.Over.Future.{over1_main}
use await.Over.Same.{forget, forget_outcome, mains-Return}
use await.Nano.{atoi}
use await.Launch
use await.Launch.Threads.{AllLaunched, main-AllLaunched}

-- what is known of a future
pub data Known : Type 0 where
  nothing : Known
  value : ℕ → Known
  exception : Known

abbrev ready : Known → Bool
ready nothing = false
ready (value n) = true
ready exception = true

abbrev value_of : Known → Option ℕ
value_of nothing = none
value_of (value n) = some n
value_of exception = none

abbrev pub known_futures : BoostFutures
known_futures = record {
  Future = Known;
  waiting = nothing;
  set_value = value;
  set_exception = exception;
  is_ready = ready;
  get = value_of;
  waiting-is_ready = refl;
  value-is_ready = λ n. refl;
  exception-is_ready = refl;
  value-get = λ n. refl;
  exception-get = refl;
}

abbrev pub completions : List (Bool × Hard.Completion)
completions =
    (true, Hard.fails) ∷ (false, Hard.write_done) ∷ (true, Hard.read_done (1 ∷ 2 ∷ 3 ∷ [])) ∷ []

abbrev pub awaiter : Hard2.Awaiter
awaiter = record { n = 0; ec = false }

-- the second of three accepts fails
abbrev pub three : Accepts
three = (false, false) ∷ (true, false) ∷ (false, false) ∷ []

servers-Served_example : Served 2 three
servers-Served_example = servers-Served 2 three

-- the server with coroutines serves the first connection only
three_lem : (run_hard2 2 three).sessions ≡ Hard2.session false 2 ∷ []
unfolding run_hard2 Hard2.Server.server Hard2.Server.resume
three_lem = refl

mains-Return_example :
    Returns
      (Over.over2_main 6 (pos 5))
      (λ w. (w.frame.point ≡ Over.finished) × (w.context ≡ []) × (w.ran ≡ 5))
    × Returns
        (over1_main 6 (pos 5))
        (λ w. (w.frame.point ≡ Over.finished) × ((forget w).context ≡ []) × (w.ran ≡ 5))
    × (forget_outcome (over1_main 6 (pos 5)) ≡ Over.over2_main 6 (pos 5))
mains-Return_example = mains-Return 6 (pos 5) (omega arith)

abbrev argv : List String
argv = "hard1" ∷ "127.0.0.1" ∷ "40000" ∷ "3" ∷ "64" ∷ []

main-AllLaunched_example : AllLaunched (λ i. []) argv
unfolding atoi
main-AllLaunched_example =
    main-AllLaunched (λ i. []) argv (omega arith, (omega arith, (omega arith, tt)))
      (omega arith, (omega arith, (omega arith, (omega arith, tt)))) refl

three_threads : (Launch.hard1_main false argv).joined ≡ 2
unfolding Launch.hard1_main Hard.new_server atoi
three_threads = refl
