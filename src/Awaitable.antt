-- ===== src/Awaitable.antt =====
-- 2015_CppCon/SuperLean/Awaitable.cpp: `TcpReader` and `ServeClient` as coroutines, with the
-- awaiters of `Connection::Read` and `Write`. A coroutine is the point where it is
-- suspended and its locals. `panic_if` ends the program, which is a `fault`. As in the other versions, the
-- results of the calls within one resumption are a list, and a call after these stays under way, and the
-- 64-bit `total` is not read any more once it is 0 or less and is modelled as stopping at 0.
pub mod Reads
pub mod Accept
pub mod Serves
pub mod Handles
pub mod Known
pub mod Associated
pub mod Run
pub mod Started
pub mod Exit
use await.Base.{
  ℕ, suc, ◌+◌, ◌-◌, ◌≡◌, Bool, true, false, List, [], ◌∷◌, ◌++◌, ltb, ◌==◌, if◌then◌else◌, Outcome,
  done, fault,
}
use await.Pal.{WsaResult, socket_error, io_pending, reader_size, receive, send}

pub data Point : Type 0 where
  at_connect : Point
  at_read : Point
  finished : Point

-- `reads` counts the reads that the coroutine was told of.
pub record Reader : Type 0 where
  pub total : ℕ
  pub point : Point
  pub reads : ℕ

-- what `await_suspend` makes of a status: go on at once, stay suspended, or end on an error
pub data Suspend : Type 0 where
  goes_on : Suspend
  suspends : Suspend
  breaks : Suspend

abbrev pub suspend_of : ℕ → Suspend
suspend_of error = if error == io_pending then goes_on else if error == 0 then suspends else breaks

-- `Read`'s `await_suspend`
unfoldable pub read_suspend : Bool → WsaResult → Suspend
unfolding receive
read_suspend sync result = suspend_of (receive sync result)

-- `Write`'s `await_suspend`
unfoldable pub write_suspend : Bool → WsaResult → Suspend
unfolding send
write_suspend sync result = suspend_of (send sync result)

-- `TcpReader`, up to its first suspension
abbrev pub tcp_reader : ℕ → Reader
tcp_reader total = record { total = total; point = at_connect; reads = 0 }

-- the rest of the loop body, with what `await_resume` returns: the length that was asked for, which is
-- never 0, so that the `break` is not reached
abbrev pub after_read : Reader → Reader
after_read r = record r { total = r.total - reader_size; reads = r.reads + 1 }

abbrev pub read_or : Suspend → Outcome Reader → Reader → Outcome Reader
read_or goes_on next r = next
read_or suspends next r = done (record r { point = at_read })
read_or breaks next r = fault

-- the loop, from its test on
abbrev pub read_loop : Bool → List WsaResult → Reader → Outcome Reader
read_loop sync [] r =
    if ltb 0 r.total
    then read_or (read_suspend sync (socket_error io_pending)) fault r
    else done (record r { point = finished })
read_loop sync (result ∷ results) r =
    let next = read_loop sync results (after_read r) in
    if ltb 0 r.total
    then read_or (read_suspend sync result) next r
    else done (record r { point = finished })

-- `io_complete_callback`: the awaiter gets `err` and `bytes`, and the coroutine is resumed.
abbrev pub resume_at : Point → Bool → ℕ → Bool → List WsaResult → Reader → Outcome Reader
resume_at at_connect err bytes sync results r = if err then fault else read_loop sync results r
resume_at at_read err bytes sync results r = read_loop sync results (after_read r)
resume_at finished err bytes sync results r = fault

unfoldable pub resume : Bool → ℕ → Bool → List WsaResult → Reader → Outcome Reader
unfolding read_suspend
resume err bytes sync results r = resume_at r.point err bytes sync results r

-- `ServeClient` is in its `co_await`, or its frame is destroyed.
pub data Client : Type 0 where
  at_write : Client
  destroyed : Client

abbrev pub write_or : Suspend → Client → Client
write_or goes_on next = next
write_or suspends next = at_write
write_or breaks next = destroyed

abbrev pub serve_client : Bool → List WsaResult → Client
serve_client sync [] = write_or (write_suspend sync (socket_error io_pending)) at_write
serve_client sync (result ∷ results) =
    let next = serve_client sync results in write_or (write_suspend sync result) next
