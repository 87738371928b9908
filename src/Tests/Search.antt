-- ===== src/Tests/Search.antt =====
-- Runs of 2018_CppCon/src/naive.h and sm.h.
use await.Base.{Bool, true, false, List, [], ◌∷◌, ◌≡◌, refl, ℤ, pos, negsuc, done, fault, arith}
use await.Naive.{naive_binary_search}
use await.Naive.Loop.{found_count}
use await.Naive.Sorted.{Answers, naive_binary_search-Answers}
use await.Nano.{doubles}
use await.Nano.Exact.{doubles-IsSorted}
use await.Sm.{sm_binary_search, sm_loop, init}
use await.Sm.Single.{sm_binary_search-naive}
use await.Sm.Multi.{sm_multi_lookup, lookup_keys, lookup_key, run_until_free, drain, pass}
use await.Sm.Multi.Drain.{sm_multi_lookup_lem}

abbrev table : List ℤ
table = negsuc 4 ∷ pos 0 ∷ pos 2 ∷ pos 4 ∷ pos 8 ∷ []

-- 0, 2, 4, 6, 8, 10
abbrev evens : List ℤ
evens = doubles 0 6

abbrev keys : List ℤ
keys = pos 2 ∷ pos 3 ∷ negsuc 4 ∷ pos 9 ∷ pos 8 ∷ pos 0 ∷ []

naive_hit : naive_binary_search table (pos 8) 0 5 ≡ done true
unfolding naive_binary_search
naive_hit = refl

naive_miss : naive_binary_search table (pos 3) 0 5 ≡ done false
unfolding naive_binary_search
naive_miss = refl

-- a range past the vector does fault
naive_outside : naive_binary_search table (pos 8) 0 20 ≡ fault
unfolding naive_binary_search
naive_outside = refl

sm_hit : sm_binary_search table 0 5 (negsuc 4) ≡ done true
unfolding sm_binary_search
sm_hit = refl

sm_multi_runs : sm_multi_lookup table 20 keys 3 ≡ done 4
unfolding sm_multi_lookup lookup_keys lookup_key run_until_free drain pass init sm_loop
sm_multi_runs = refl

naive_binary_search-Answers_example :
    (b : Bool) × (naive_binary_search evens (pos 4) 1 5 ≡ done b) × Answers evens (pos 4) 1 5 b
naive_binary_search-Answers_example =
    naive_binary_search-Answers evens (pos 4) 1 5 (omega arith) (omega arith) (doubles-IsSorted 6)

sm_binary_search-naive_example :
    sm_binary_search table 1 4 (pos 2) ≡ naive_binary_search table (pos 2) 1 4
sm_binary_search-naive_example =
    sm_binary_search-naive table (omega arith) 1 4 (pos 2) (omega arith) (omega arith)

sm_multi_lookup_lem_example : sm_multi_lookup table 20 keys 3 ≡ done (found_count table keys)
sm_multi_lookup_lem_example =
    sm_multi_lookup_lem table (omega arith) 20 keys 3 (omega arith) (omega arith)
