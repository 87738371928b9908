-- ===== src/Hard.antt =====
-- 2017_CppCon/live/hard1.cpp: the session of the echo server as one coroutine, with awaiters for the read
-- and the write, and its server. The frame of a session is the point where it waits and its buffer; an
-- exception ends it. What the awaiter has asked of the socket is known from the point.
pub mod Same
pub mod Echo
use await.Base.{
  ℕ, suc, ◌+◌, ◌≤◌, ◌≡◌, Bool, true, false, List, [], ◌∷◌, ◌++◌, if◌then◌else◌, length, replicate,
  take, overwrite,
}

pub data Point : Type 0 where
  at_read : Point  -- in `co_await async_read_some`
  at_write : (n : ℕ) → Point  -- in `co_await async_write`, of the first `n` bytes
  finished : Point

pub record Session : Type 0 where
  pub block_size : ℕ
  pub buf : List ℕ
  pub point : Point
  pub received : List (List ℕ)
  pub sent : List (List ℕ)

-- The body up to its first suspension. This `set_option` throws when it fails.
unfoldable pub session : Bool → ℕ → Session
session set_option_err block_size = record {
  block_size = block_size;
  buf = replicate block_size 0;
  point = if set_option_err then finished else at_read;
  received = [];
  sent = [];
}

-- The callback stores `ec` and `n` and resumes; `await_resume` throws if there is an error.
unfoldable pub resume_read : Bool → ℕ → Session → Session
resume_read ec n s = record s { point = if ec then finished else at_write n }

unfoldable pub resume_write : Bool → Session → Session
resume_write ec s = record s { point = if ec then finished else at_read }

-- What the socket completes with: the bytes of a read, or an error.
pub data Completion : Type 0 where
  read_done : (bytes : List ℕ) → Completion
  write_done : Completion
  fails : Completion

-- the completion of what the session waits for; any other does not occur
abbrev pub complete_at : Point → Completion → Session → Session
complete_at at_read (read_done bytes) s =
    resume_read false (length (take s.block_size bytes)) (record s {
      buf = overwrite (take s.block_size bytes) s.buf;
      received = s.received ++ (take s.block_size bytes ∷ []);
    })
complete_at at_read write_done s = s
complete_at at_read fails s = resume_read true 0 s
complete_at (at_write n) (read_done bytes) s = s
complete_at (at_write n) write_done s =
    resume_write false (record s { sent = s.sent ++ (take n s.buf ∷ []) })
complete_at (at_write n) fails s = resume_write true s
complete_at finished c s = s

unfoldable pub complete : Completion → Session → Session
unfolding resume_read resume_write
complete c s = complete_at s.point c s

pub record Server : Type 0 where
  pub block_size : ℕ
  pub accepting : ℕ
  pub sessions : List Session

unfoldable pub start_accept : Server → Server
start_accept s = record s { accepting = s.accepting + 1 }

unfoldable pub new_server : ℕ → Server
unfolding start_accept
new_server block_size =
    start_accept (record { block_size = block_size; accepting = 0; sessions = [] })

unfoldable pub handle_accept : Bool → Bool → Server → Server
unfolding start_accept session
handle_accept err set_option_err s =
    if err
    then start_accept s
    else start_accept
        (record s { sessions = s.sessions ++ (session set_option_err s.block_size ∷ []) })
