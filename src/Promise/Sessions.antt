-- ===== src/Promise/Sessions.antt =====
-- The futures that the sessions of hard1.cpp, easy.cpp and hard2.cpp and the server of hard2.cpp give back.
use await.Base.{ℕ, ◌≡◌, ◌≢◌, ◌⊎◌, Bool, true, false, List, Option, none, some, map, Returns, to_ℕ}
use await.Hard
use await.Hard.Same.{Same, run_callbacks}
use await.Server
use await.Easy
use await.Easy.Futures.{BoostFutures}
use await.Hard2
use await.Hard2.Server as Accepting
use await.Hard2.Accepts.{Accepts, any_failed}
use await.Promise.{PromiseLib, std_void_promise, Body, Call, feed}
use await.Promise.Settled.{Settled}

-- The body of a session is over only by an exception.
abbrev pub session_result : Hard.Point → Option (Option (Unit {0}))
session_result Hard.at_read = none
session_result (Hard.at_write n) = none
session_result Hard.finished = some none

abbrev pub session_body :
    {I : Type 0} → Hard.Session → (I → Hard.Session → Hard.Session) → Body I (Unit {0})
session_body start step = record {
  State = Hard.Session;
  start = start;
  step = step;
  result = λ s. session_result s.point;
}

abbrev pub hard1_body : Bool → ℕ → Body Hard.Completion (Unit {0})
hard1_body failed size = session_body (Hard.session failed size) Hard.complete

abbrev pub easy_body : BoostFutures → Bool → ℕ → Body (Bool × Hard.Completion) (Unit {0})
easy_body b failed size = session_body (Easy.session failed size) (λ c. Easy.complete b c.0 c.1)

abbrev pub hard2_body : Hard2.Awaiter → Bool → ℕ → Body Hard.Completion (Unit {0})
hard2_body a failed size = session_body (Hard2.session failed size) (Hard2.complete a)

abbrev pub server_result : Accepting.Point → Option (Option (Unit {0}))
server_result Accepting.at_accept = none
server_result Accepting.ended = some none

abbrev pub server_body : ℕ → Body (Bool × Bool) (Unit {0})
server_body size = record {
  State = Accepting.Server;
  start = Accepting.server size;
  step = λ e. Accepting.resume e.0 e.1;
  result = λ s. server_result s.point;
}

-- The coroutine is suspended and its future waits, or its frame has gone and the future holds an exception.
abbrev pub Kept : {S : Type 0} (l : PromiseLib (Unit {0})) → ℕ → Call S l.Promise → Type 0
Kept l deleted c =
    ((deleted ≡ 0) × (c.frame ≢ none) × (l.is_ready c.promise ≡ false))
    ⊎ ((deleted ≡ 1) × (c.frame ≡ none) × (l.is_ready c.promise ≡ true) × (l.get c.promise ≡ none))

pub record FuturesKept (l : PromiseLib (Unit {0})) (b : BoostFutures) (a : Hard2.Awaiter)
    (failed : Bool) (size : ℕ) (cs : List (Bool × Hard.Completion)) (es : Accepts) : Type 0 where
  pub hard1 :
      Returns
        (feed l (std_void_promise l) (hard1_body failed size) (map (λ c. c.1) cs))
        (Kept l (run_callbacks failed size (map (λ c. c.1) cs)).deleted)
  pub easy :
      Returns
        (feed l (std_void_promise l) (easy_body b failed size) cs)
        (Kept l (run_callbacks failed size (map (λ c. c.1) cs)).deleted)
  pub hard2 :
      Returns
        (feed l (std_void_promise l) (hard2_body a false size) (map (λ c. c.1) cs))
        (Kept l (run_callbacks false size (map (λ c. c.1) cs)).deleted)
  pub server :
      Returns (feed l (std_void_promise l) (server_body size) es) (Kept l (to_ℕ (any_failed es)))
