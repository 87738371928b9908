-- ===== src/Hard2/Sessions.antt =====
-- The sessions of hard1.cpp, easy.cpp and hard2.cpp and the session of myserver.cpp.
use await.Base.{ℕ, Bool, false, List, map}
use await.Hard
use await.Hard.Same.{Same, run_callbacks, run_coroutine}
use await.Easy.Futures.{BoostFutures}
use await.Easy.Same.{run_futures}
use await.Hard2
use await.Hard2.Same.{run_session}

pub record AllSame (b : BoostFutures) (a : Hard2.Awaiter) (failed : Bool) (size : ℕ)
    (cs : List (Bool × Hard.Completion)) : Type 0 where
  pub hard1 :
      Same
        (run_callbacks failed size (map (λ c. c.1) cs))
        (run_coroutine failed size (map (λ c. c.1) cs))
  pub easy : Same (run_callbacks failed size (map (λ c. c.1) cs)) (run_futures b failed size cs)
  pub hard2 :
      Same
        (run_callbacks false size (map (λ c. c.1) cs))
        (run_session a false size (map (λ c. c.1) cs))
