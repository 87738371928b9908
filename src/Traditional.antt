-- ===== src/Traditional.antt =====
-- `tcp_reader`, `tcp_writer` and `Connection` of 2015_CppCon/SuperLean/Traditional.cpp. A reader is its
-- counter and what it has with the system; each call allocates a handler. The results of the calls of
-- `WSARecv` and `WSASend` within one handler are a list, and a call after these is left under way. The
-- 64-bit counter is not read any more once it is 0 or less, so it is modelled as stopping at 0.
pub mod Handled
pub mod Readers
pub mod Overcount
pub mod Accept
pub mod Attends
pub mod Handles
pub mod Known
pub mod Associated
use await.Base.{
  ℕ, suc, ◌+◌, ◌-◌, ◌≡◌, Bool, true, false, ◌||◌, List, [], ◌∷◌, ◌++◌, replicate, leb, ◌==◌,
  if◌then◌else◌,
}
use await.Pal.{
  WsaResult, success, socket_error, io_pending, reader_size, receive, send, WorkTracker,
  new_tracker, completed, failed, Called, again, under_way, invoked,
}

pub record Reader : Type 0 where
  pub total : ℕ
  pub connecting : ℕ  -- connects under way
  pub reading : ℕ  -- reads under way
  pub deleted : ℕ  -- how often it was deleted
  pub made : ℕ  -- `OverlappedBase` objects made for it
  pub freed : ℕ  -- and deleted

unfoldable pub conn_read : Bool → WsaResult → Reader → Called × Reader
unfolding receive
conn_read sync result r =
    let error = receive sync result in
    if error == io_pending
    then (again, record r { made = r.made + 1; freed = r.freed + 1 })
    else if error == 0
    then (under_way, record r { made = r.made + 1; reading = r.reading + 1 })
    else (invoked, record r { made = r.made + 1 })

-- `start`
unfoldable pub start : ℕ → Reader
start total = record {
  total = total;
  connecting = 1;
  reading = 0;
  deleted = 0;
  made = 1;
  freed = 0;
}

-- `OnError` and `OnComplete`, with the deletion of the reader
unfoldable pub on_error : Reader → WorkTracker → Reader × WorkTracker
on_error r t = (record r { deleted = r.deleted + 1 }, failed t)

unfoldable pub on_complete : Reader → WorkTracker → Reader × WorkTracker
on_complete r t = (record r { deleted = r.deleted + 1 }, completed t)

-- what follows a call of `Read` in a loop: the next round, nothing, or `OnRead` with the error
abbrev pub after_call : Called → Reader × WorkTracker → Reader → WorkTracker → Reader × WorkTracker
after_call again next r t = next
after_call under_way next r t = (r, t)
after_call invoked next r t = on_error r t

abbrev pub connect_loop : Bool → List WsaResult → Reader → WorkTracker → Reader × WorkTracker
connect_loop sync [] r t = ((conn_read sync (socket_error io_pending) r).1, t)
connect_loop sync (result ∷ results) r t =
    let (called, r') = conn_read sync result r in
    let next = connect_loop sync results r' t in after_call called next r' t

unfoldable pub on_connect :
    Bool → Bool → List WsaResult → Reader → WorkTracker → Reader × WorkTracker
unfolding on_error
on_connect sync ec results r t = if ec then on_error r t else connect_loop sync results r t

abbrev pub count : ℕ → Reader → Reader
count bytes r = record r { total = r.total - bytes }

abbrev pub is_over : ℕ → Reader → Bool
is_over bytes r = leb r.total 0 || bytes == 0

abbrev pub read_loop : Bool → List WsaResult → ℕ → Reader → WorkTracker → Reader × WorkTracker
read_loop sync [] bytes r t =
    let r' = count bytes r in
    if is_over bytes r'
    then on_complete r' t
    else ((conn_read sync (socket_error io_pending) r').1, t)
read_loop sync (result ∷ results) bytes r t =
    let r' = count bytes r in
    let (called, r'') = conn_read sync result r' in
    let next = read_loop sync results reader_size r'' t in
    if is_over bytes r' then on_complete r' t else after_call called next r'' t

unfoldable pub on_read :
    Bool → Bool → ℕ → List WsaResult → Reader → WorkTracker → Reader × WorkTracker
unfolding on_error
on_read sync ec bytes results r t = if ec then on_error r t else read_loop sync results bytes r t

pub record Writer : Type 0 where
  pub writing : ℕ  -- writes under way
  pub posted : ℕ  -- completions posted to the pool
  pub failed : ℕ  -- calls of `OnError`
  pub handlers : ℕ  -- `OverlappedBase` objects that are not deleted

unfoldable pub conn_write : Bool → WsaResult → Writer → Called × Writer
unfolding send
conn_write sync result w =
    let error = send sync result in
    if error == io_pending
    then (again, w)
    else if error == 0
    then (under_way, record w { writing = w.writing + 1; handlers = w.handlers + 1 })
    else (invoked, record w { failed = w.failed + 1; handlers = w.handlers + 1 })

-- the constructor; `OnError` does nothing with any error
unfoldable pub new_writer : Bool → WsaResult → Writer
unfolding conn_write
new_writer sync result =
    let (called, w) =
      conn_write sync result (record { writing = 0; posted = 0; failed = 0; handlers = 0 }) in
    elim called [
      | again ↦ record w { posted = w.posted + 1; handlers = w.handlers + 1 }
      | under_way ↦ w
      | invoked ↦ w
    ]

abbrev pub write_loop : Bool → List WsaResult → Writer → Writer
write_loop sync [] w = (conn_write sync (socket_error io_pending) w).1
write_loop sync (result ∷ results) w =
    let (called, w') = conn_write sync result w in
    let next = write_loop sync results w' in
    elim called [ again ↦ next | under_way ↦ w' | invoked ↦ w' ]

unfoldable pub on_write : Bool → Bool → List WsaResult → Writer → Writer
on_write sync ec results w =
    if ec then record w { failed = w.failed + 1 } else write_loop sync results w

pub record System : Type 0 where
  pub readers : List Reader
  pub tracker : WorkTracker

-- `run`
unfoldable pub new_system : ℕ → ℕ → System
unfolding start new_tracker
new_system readers bytes = record {
  readers = replicate readers (start bytes);
  tracker = new_tracker readers;
}

-- A completion of one reader's operation, with the handler that it runs.
pub data Step (sync : Bool) : System → System → Type 0 where
  connects :
      {s : System} (before after : List Reader) (r : Reader) (n : ℕ) (ec : Bool)
      (results : List WsaResult)
      → s.readers ≡ before ++ (r ∷ after)
      → r.connecting ≡ suc n
      → Step sync s (
          let out = on_connect sync ec results (record r { connecting = n }) s.tracker in
          record { readers = before ++ (out.0 ∷ after); tracker = out.1 })
  reads :
      {s : System} (before after : List Reader) (r : Reader) (n : ℕ) (ec : Bool) (bytes : ℕ)
      (results : List WsaResult)
      → s.readers ≡ before ++ (r ∷ after)
      → r.reading ≡ suc n
      → Step sync s (
          let out = on_read sync ec bytes results (record r { reading = n }) s.tracker in
          record { readers = before ++ (out.0 ∷ after); tracker = out.1 })
