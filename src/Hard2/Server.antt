-- ===== src/Hard2/Server.antt =====
-- `server` of 2017_CppCon/live/hard2.cpp, with the awaiter of `async_accept`.
use await.Base.{ℕ, Bool, false, List, [], ◌∷◌, ◌++◌, Option, none, some, if◌then◌else◌}
use await.Hard.{Session}
use await.Hard2.{session}

-- The frame of the server: it waits in `co_await async_accept`, or an exception has ended it.
pub data Point : Type 0 where
  at_accept : Point
  ended : Point

pub record Server : Type 0 where
  pub block_size : ℕ
  pub point : Point
  pub sessions : List Session

-- `Awaiter`; a socket is whether its `set_option` fails.
pub record Awaiter : Type 0 where
  pub result : Option Bool
  pub ec : Bool

abbrev pub accept_handler : Bool → Bool → Awaiter → Awaiter
accept_handler ec result a = record a { result = some result; ec = ec }

abbrev pub accept_resume : Awaiter → Option Bool
accept_resume a = if a.ec then none else a.result

unfoldable pub server : ℕ → Server
server block_size = record { block_size = block_size; point = at_accept; sessions = [] }

-- the body of the loop, with what `await_resume` returns
abbrev pub serve : Option Bool → Server → Server
serve (some socket) s = record s { sessions = s.sessions ++ (session socket s.block_size ∷ []) }
serve none s = record s { point = ended }

abbrev pub resume_at : Point → Bool → Bool → Server → Server
resume_at at_accept ec socket s =
    serve (accept_resume (accept_handler ec socket (record { result = none; ec = false }))) s
resume_at ended ec socket s = s

-- The completion of an accept; none is under way when the server has ended.
unfoldable pub resume : Bool → Bool → Server → Server
resume ec socket s = resume_at s.point ec socket s
