-- ===== src/Awaitable/Associated.antt =====
-- The handles that are associated with the thread pool in the runs of the three versions.
use await.Base.{ℕ, Bool}
use await.Traditional.Associated.{Associated, traditional-Associated, no_handle}
use await.Traditional.Associated as Traditional
use await.Traditional.Handles as TraditionalHandles
use await.Improved.Handles.{improved-Associated}
use await.Improved.Handles as Improved
use await.Awaitable.Handles.{Net, Reach}
use await.Awaitable.Known.{AllKnown, awaitable-AllKnown}

-- In every run of the sockets of Traditional.cpp, Improved.cpp and Awaitable.cpp with a new thread
-- pool, and that no panic ends: each socket that was made is associated with the pool just once, or
-- is not and waits in the handler of an accept of the first two; in Awaitable.cpp each is; and no
-- accept, connect, read or write was started on a handle that is not associated.
pub sockets-Associated :
    {fn threads : ℕ} {sync : Bool} {t i : TraditionalHandles.Net} {a : Net}
    → Traditional.Reach fn threads sync t
    → Improved.Reach fn threads sync i
    → Reach fn threads sync a
    → Associated t × Associated i × AllKnown a
sockets-Associated t i a = (traditional-Associated t, improved-Associated i, awaitable-AllKnown a)
