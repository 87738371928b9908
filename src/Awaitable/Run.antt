-- ===== src/Awaitable/Run.antt =====
-- `run` of 2015_CppCon/SuperLean/Awaitable.cpp up to its `os_sleep`, the end of its `ThreadPool`, and main.cpp,
-- which calls it after `SocketStarter` of PAL.cpp has started Winsock. What the system's calls return is an input.
use await.Base.{ℕ, zero, suc, Bool, false, [], none, if◌then◌else◌}
use await.Pal.Queue.{Ends, returns, exits, and_then, Process}
use await.Pal.Pool.{readers_pool, destroy_pool}
use await.Awaitable.Handles.{Net, listen, accept_suspend, connect_suspend}

-- what the calls for one socket return: of `bind`, of the two of `AssociateHandle`, and of the last one
pub record Answers : Type 0 where
  pub bind_ok : Bool
  pub modes_ok : Bool
  pub port_ok : Bool
  pub last_ok : Bool

abbrev pub no_sockets : Process → Net
no_sockets p = record {
  process = p;
  opened = 0;
  listeners = [];
  accepting = [];
  connecting = [];
  connections = [];
  started = [];
}

-- `Server()` up to its first suspension
unfoldable pub start_server : Answers → Answers → ℕ → Net → Ends Net
start_server l a fn n =
    and_then (listen l.bind_ok l.modes_ok l.port_ok l.last_ok fn n)
      (λ m. accept_suspend a.modes_ok a.port_ok a.last_ok fn n.opened m)

-- the loop over `TcpReader(bytes)`, each up to its first suspension; a socket's answers go by its handle
unfoldable pub start_readers : (ℕ → Answers) → ℕ → ℕ → Net → Ends Net
start_readers answers zero fn n = returns n
start_readers answers (suc left) fn n =
    let a = answers n.opened in
    and_then (connect_suspend a.bind_ok a.modes_ok a.port_ok a.last_ok fn n)
      (start_readers answers left fn)

-- `run` before it sleeps
unfoldable pub start_run : Bool → (ℕ → Bool) → (ℕ → Answers) → ℕ → Bool → ℕ → Process → Ends Net
start_run port_ok ok answers readers sync fn p =
    and_then (readers_pool port_ok ok readers sync p) (λ q.
      and_then (start_server (answers 0) (answers 1) fn (no_sockets q))
        (start_readers answers readers fn))

-- `run` when it has slept: the destructor of its pool
unfoldable pub end_run : Net → Ends Process
end_run n = destroy_pool n.process

-- the calls of `SocketStarter`: `WSAStartup`, `WSAIoctl` for `ConnectEx` and for `AcceptEx`, and `getsockopt`, which
-- says whether the provider's handles are those of a file system
pub record Startup : Type 0 where
  pub startup_ok : Bool
  pub connect_ok : Bool
  pub accept_ok : Bool
  pub protocol_ok : Bool
  pub ifs_handles : Bool

unfoldable pub start_sockets : Startup → Ends Process
start_sockets s =
    if s.startup_ok
    then (if s.connect_ok
        then (if s.accept_ok
            then (if s.protocol_ok
                then returns (record { queue = none; sync_completion = s.ifs_handles })
                else exits 1)
            else exits 1)
        else exits 1)
    else exits 1

-- `main`: one reader, and no synchronous completion
abbrev pub main_readers : ℕ
main_readers = 1

abbrev pub main_sync : Bool
main_sync = false

unfoldable pub start_main : Startup → Bool → (ℕ → Bool) → (ℕ → Answers) → ℕ → Ends Net
start_main s port_ok ok answers fn =
    and_then (start_sockets s) (start_run port_ok ok answers main_readers main_sync fn)
