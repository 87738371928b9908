-- ===== src/Hard2/Same.antt =====
-- The coroutines of hard2.cpp and those of hard1.cpp and myserver.cpp.
use await.Base.{ℕ, ◌≡◌, refl, ap, sym, subst, ◌∙◌, Bool, false, List, [], ◌∷◌}
use await.Hard
use await.Hard.Same.{Same, run_callbacks, run_coroutine, hard1-Same}
use await.Hard2

unfoldable pub run_session : Hard2.Awaiter → Bool → ℕ → List Hard.Completion → Hard.Session
run_session a failed size [] = Hard2.session failed size
run_session a failed size (c ∷ cs) = Hard2.complete a c (run_session a failed size cs)

complete-eq :
    (a : Hard2.Awaiter) (pt : Hard.Point) (c : Hard.Completion) (s : Hard.Session)
    → Hard2.complete_at a pt c s ≡ Hard.complete_at pt c s
unfolding Hard.resume_read Hard.resume_write
complete-eq a Hard.at_read (Hard.read_done bytes) s = refl
complete-eq a Hard.at_read Hard.write_done s = refl
complete-eq a Hard.at_read Hard.fails s = refl
complete-eq a (Hard.at_write n) (Hard.read_done bytes) s = refl
complete-eq a (Hard.at_write n) Hard.write_done s = refl
complete-eq a (Hard.at_write n) Hard.fails s = refl
complete-eq a Hard.finished c s = refl

-- When `set_option` succeeds, the sessions are the same after any completions.
pub run_session-eq :
    (a : Hard2.Awaiter) (size : ℕ) (cs : List Hard.Completion)
    → run_session a false size cs ≡ run_coroutine false size cs
unfolding run_session run_coroutine Hard2.session Hard.session Hard2.complete Hard.complete
run_session-eq a size [] = refl
run_session-eq a size (c ∷ cs) =
    let s = run_session a false size cs in
    complete-eq a s.point c s ∙ ap (λ t. Hard.complete_at t.point c t) (run_session-eq a size cs)

pub hard2-Same :
    (a : Hard2.Awaiter) (size : ℕ) (cs : List Hard.Completion)
    → Same (run_callbacks false size cs) (run_session a false size cs)
hard2-Same a size cs =
    subst (Same (run_callbacks false size cs)) (sym (run_session-eq a size cs))
      (hard1-Same false size cs)
