-- ===== src/Pal.antt =====
-- The part of 2015_CppCon/SuperLean/PAL.h and PAL.cpp that the clients' logic rests on: the status that
-- `Send` and `Receive` make of a Winsock call, and the `WorkTracker` that stops the thread pool. What a
-- Winsock call does is an input.
pub mod Sockets
pub mod Ownership
pub mod Queue
pub mod Threads
pub mod Calls
pub mod Pool
pub mod Effects
pub mod Delivery
pub mod Notify
use await.Base.{ℕ, ◌+◌, ◌-◌, ◌%◌, ◌^◌, Bool, ◌==◌, if◌then◌else◌}

-- how a call of `WSARecv` or `WSASend` comes back
pub data WsaResult : Type 0 where
  success : (bytes : ℕ) → WsaResult  -- at once, with that many bytes
  socket_error : (code : ℕ) → WsaResult  -- `SOCKET_ERROR`, with what `GetLastError` gives

-- `ERROR_IO_PENDING`, which is also `kSynchCompletion`
abbrev pub io_pending : ℕ
io_pending = 997

-- `ReaderSize` and `WriterSize`
abbrev pub reader_size : ℕ
reader_size = 4096

-- The status of `Receive`. The number of bytes goes no further.
unfoldable pub receive : Bool → WsaResult → ℕ
receive sync_completion (success bytes) = if sync_completion then io_pending else 0
receive sync_completion (socket_error code) = if code == io_pending then 0 else code

unfoldable pub send : Bool → WsaResult → ℕ
send sync_completion (success bytes) = if sync_completion then io_pending else 0
send sync_completion (socket_error code) = if code == io_pending then 0 else code

-- `stops` counts the calls of `ThreadPool::Stop`.
pub record WorkTracker : Type 0 where
  pub work_count : ℕ
  pub stops : ℕ

unfoldable pub new_tracker : ℕ → WorkTracker
new_tracker work = record { work_count = work; stops = 0 }

-- `--workCount` on a 32-bit `int`
unfoldable pub release_work : WorkTracker → WorkTracker
release_work t =
    let left = (t.work_count + (2 ^ 32 - 1)) % 2 ^ 32 in
    if left == 0
    then record { work_count = left; stops = t.stops + 1 }
    else record { work_count = left; stops = t.stops }

abbrev pub completed : WorkTracker → WorkTracker
completed = release_work

abbrev pub failed : WorkTracker → WorkTracker
failed = release_work

-- how `Connection::Read` and `Write` end: `true`, or `false` with the read under way or with the handler invoked
pub data Called : Type 0 where
  again : Called
  under_way : Called
  invoked : Called
