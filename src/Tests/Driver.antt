-- ===== src/Tests/Driver.antt =====
-- Runs of 2018_CppCon/src/nanotest.cpp.
use await.Base.{some, [], ◌∷◌, ◌≡◌, refl, pos, negsuc, done, arith}
use await.Nano.{coro, TestParam, parse_algo, parse_size, atoi, main}
use await.Nano.Agree.{main_lem}

abbrev quick : TestParam
quick = record { size_in_bytes = 16384; lookup_size = 1024; repeat = 1; expected_result = 505 }

atoi_reads : (atoi " +12x" ≡ pos 12) × (atoi "-3" ≡ negsuc 2) × (atoi "x" ≡ pos 0)
unfolding atoi
atoi_reads = (refl, refl, refl)

algo_read : parse_algo "coro" ≡ some coro
unfolding parse_algo
algo_read = refl

size_read : parse_size "quick" ≡ some quick
unfolding parse_size
size_read = refl

streams_read : atoi "7" ≡ pos 7
unfolding atoi
streams_read = refl

-- with a generator that draws 4 each time, all 1024 lookups succeed, and 505 were expected
main_lem_example : main 50000 (λ i. pos 4) ("coro" ∷ "quick" ∷ "7" ∷ []) ≡ done 1
main_lem_example =
    main_lem 50000 (λ i. pos 4) "coro" "quick" "7" coro quick 7 algo_read size_read streams_read
      (omega arith) (omega arith) (omega arith)
