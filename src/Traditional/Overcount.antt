-- ===== src/Traditional/Overcount.antt =====
-- What a reader of Traditional.cpp counts for a call that completes at once.
use await.Base.{ℕ, ◌+◌, ◌≤◌, ◌<◌, ◌≡◌, true, false, [], ◌∷◌, arith}
use await.Pal.{success, reader_size, receive, WorkTracker}
use await.Traditional.{Reader, on_read, conn_read, on_complete}

-- With calls that complete at once, a reader of Traditional.cpp that has been told of `n` bytes,
-- more than none and fewer than it wants, is deleted as complete after one further call, if that
-- and a whole buffer would be enough, also where the `k` bytes that the call brings are too few.
pub read_overcounts :
    (n k : ℕ) (r : Reader) (t : WorkTracker)
    → 0 < n
    → n < r.total
    → r.total ≤ n + reader_size
    → n + k < r.total
    → ((on_read true false n (success k ∷ []) r t).0.deleted ≡ r.deleted + 1)
unfolding on_read conn_read on_complete receive
read_overcounts n k r t some less near short = ground arith
