-- ===== src/Easy.antt =====
-- 2017_CppCon/live/easy.cpp, with boost_coro.h and use_boost_future.h: the session of the echo server as a
-- coroutine that awaits Boost futures, and its server (the code before the disabled part of the file). The
-- frame of a session is that of hard1.cpp. A future may be ready when the coroutine asks, so that it goes on
-- at once, or it calls the continuation later.
pub mod Futures
pub mod Same
use await.Base.{
  ℕ, ◌+◌, ◌≡◌, Bool, true, false, List, [], ◌∷◌, ◌++◌, Option, none, some, if◌then◌else◌, length,
  replicate, take, overwrite,
}
use await.Hard.{
  Point, at_read, at_write, finished, Session, Completion, read_done, write_done, fails,
}
use await.Easy.Futures.{BoostFutures, complete_size, co_await}

-- The body up to the first `co_await`.
unfoldable pub session : Bool → ℕ → Session
session set_option_err block_size = record {
  block_size = block_size;
  buf = replicate block_size 0;
  point = if set_option_err then finished else at_read;
  received = [];
  sent = [];
}

-- The loop goes on with what `await_resume` returns, or ends with its exception.
abbrev pub go_on : (ℕ → Point) → Option ℕ → Session → Session
go_on next (some n) s = record s { point = next n }
go_on next none s = record s { point = finished }

-- One call of the socket and its `co_await`, by the point; `early` says whether the call had completed
-- when the future was asked. A completion of another kind does not occur.
abbrev pub complete_at : BoostFutures → Point → Bool → Completion → Session → Session
complete_at b at_read early (read_done bytes) s =
    go_on at_write (co_await b early (complete_size b false (length (take s.block_size bytes))))
      (record s {
        buf = overwrite (take s.block_size bytes) s.buf;
        received = s.received ++ (take s.block_size bytes ∷ []);
      })
complete_at b at_read early write_done s = s
complete_at b at_read early fails s = go_on at_write (co_await b early (complete_size b true 0)) s
complete_at b (at_write n) early (read_done bytes) s = s
complete_at b (at_write n) early write_done s =
    go_on (λ _. at_read) (co_await b early (complete_size b false n))
      (record s { sent = s.sent ++ (take n s.buf ∷ []) })
complete_at b (at_write n) early fails s =
    go_on (λ _. at_read) (co_await b early (complete_size b true 0)) s
complete_at b finished early c s = s

unfoldable pub complete : BoostFutures → Bool → Completion → Session → Session
complete b early c s = complete_at b s.point early c s

pub record Server : Type 0 where
  pub block_size : ℕ
  pub accepting : ℕ
  pub sessions : List Session

unfoldable pub start_accept : Server → Server
start_accept s = record s { accepting = s.accepting + 1 }

unfoldable pub new_server : ℕ → Server
unfolding start_accept
new_server block_size =
    start_accept (record { block_size = block_size; accepting = 0; sessions = [] })

unfoldable pub handle_accept : Bool → Bool → Server → Server
unfolding start_accept session
handle_accept err set_option_err s =
    if err
    then start_accept s
    else start_accept
        (record s { sessions = s.sessions ++ (session set_option_err s.block_size ∷ []) })
