-- ===== src/Hard2.antt =====
-- 2017_CppCon/live/hard2.cpp, with the awaiters of await_adapters.h: the session of the echo server and the
-- server itself as coroutines. An exception of `await_resume` ends the coroutine, and its future keeps it.
pub mod Server
pub mod Same
pub mod Accepts
pub mod Sessions
use await.Base.{
  ℕ, ◌+◌, ◌≡◌, Bool, true, false, List, [], ◌∷◌, ◌++◌, Option, none, some, if◌then◌else◌, length,
  replicate, take, overwrite,
}
use await.Hard.{
  Point, at_read, at_write, finished, Session, Completion, read_done, write_done, fails,
}

-- `Awaiter` of `async_read_some` and of `async_write`
pub record Awaiter : Type 0 where
  pub n : ℕ
  pub ec : Bool

-- the handler, before it resumes the coroutine
abbrev pub read_handler : Bool → ℕ → Awaiter → Awaiter
read_handler ec n a = record a { n = n; ec = ec }

-- `none` is the `system_error` that is thrown
abbrev pub read_resume : Awaiter → Option ℕ
read_resume a = if a.ec then none else some a.n

abbrev pub write_handler : Bool → ℕ → Awaiter → Awaiter
write_handler ec n a = record a { n = n; ec = ec }

abbrev pub write_resume : Awaiter → Option ℕ
write_resume a = if a.ec then none else some a.n

-- The body up to the first `co_await`. `set_option` comes first, so that there is no buffer if it throws.
unfoldable pub session : Bool → ℕ → Session
session set_option_err block_size = record {
  block_size = block_size;
  buf = if set_option_err then [] else replicate block_size 0;
  point = if set_option_err then finished else at_read;
  received = [];
  sent = [];
}

abbrev pub go_on : (ℕ → Point) → Option ℕ → Session → Session
go_on next (some n) s = record s { point = next n }
go_on next none s = record s { point = finished }

-- The completion of what the session awaits, with the awaiter as it stands in the frame.
abbrev pub complete_at : Awaiter → Point → Completion → Session → Session
complete_at a at_read (read_done bytes) s =
    go_on at_write (read_resume (read_handler false (length (take s.block_size bytes)) a))
      (record s {
        buf = overwrite (take s.block_size bytes) s.buf;
        received = s.received ++ (take s.block_size bytes ∷ []);
      })
complete_at a at_read write_done s = s
complete_at a at_read fails s = go_on at_write (read_resume (read_handler true 0 a)) s
complete_at a (at_write n) (read_done bytes) s = s
complete_at a (at_write n) write_done s =
    go_on (λ _. at_read) (write_resume (write_handler false n a))
      (record s { sent = s.sent ++ (take n s.buf ∷ []) })
complete_at a (at_write n) fails s = go_on (λ _. at_read) (write_resume (write_handler true 0 a)) s
complete_at a finished c s = s

unfoldable pub complete : Awaiter → Completion → Session → Session
complete a c s = complete_at a s.point c s
