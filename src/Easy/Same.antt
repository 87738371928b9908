-- ===== src/Easy/Same.antt =====
-- The sessions and servers of easy.cpp, hard1.cpp and myserver.cpp.
use await.Base.{ℕ, ◌≡◌, refl, ap, sym, subst, ◌∙◌, Bool, List, [], ◌∷◌, map, length, take}
use await.Hard
use await.Hard.Same.{Same, run_callbacks, run_coroutine, hard1-Same}
use await.Easy
use await.Easy.Futures.{BoostFutures, await_value, await_exception}

unfoldable pub run_futures : BoostFutures → Bool → ℕ → List (Bool × Hard.Completion) → Hard.Session
run_futures b failed size [] = Easy.session failed size
run_futures b failed size (c ∷ cs) = Easy.complete b c.0 c.1 (run_futures b failed size cs)

complete-eq :
    (b : BoostFutures) (pt : Hard.Point) (early : Bool) (c : Hard.Completion) (s : Hard.Session)
    → Easy.complete_at b pt early c s ≡ Hard.complete_at pt c s
unfolding Hard.resume_read Hard.resume_write
complete-eq b Hard.at_read early (Hard.read_done bytes) s =
    rw (await_value b early (length (take s.block_size bytes)))
complete-eq b Hard.at_read early Hard.write_done s = refl
complete-eq b Hard.at_read early Hard.fails s = rw (await_exception b early 0)
complete-eq b (Hard.at_write n) early (Hard.read_done bytes) s = refl
complete-eq b (Hard.at_write n) early Hard.write_done s = rw (await_value b early n)
complete-eq b (Hard.at_write n) early Hard.fails s = rw (await_exception b early 0)
complete-eq b Hard.finished early c s = refl

pub run_futures-eq :
    (b : BoostFutures) (failed : Bool) (size : ℕ) (cs : List (Bool × Hard.Completion))
    → run_futures b failed size cs ≡ run_coroutine failed size (map (λ c. c.1) cs)
unfolding run_futures run_coroutine Easy.session Hard.session Easy.complete Hard.complete
run_futures-eq b failed size [] = refl
run_futures-eq b failed size (c ∷ cs) =
    let s = run_futures b failed size cs in
    complete-eq b s.point c.0 c.1 s
    ∙ ap (λ t. Hard.complete_at t.point c.1 t) (run_futures-eq b failed size cs)

pub easy-Same :
    (b : BoostFutures) (failed : Bool) (size : ℕ) (cs : List (Bool × Hard.Completion))
    → Same (run_callbacks failed size (map (λ c. c.1) cs)) (run_futures b failed size cs)
easy-Same b failed size cs =
    subst (Same (run_callbacks failed size (map (λ c. c.1) cs)))
      (sym (run_futures-eq b failed size cs)) (hard1-Same failed size (map (λ c. c.1) cs))
