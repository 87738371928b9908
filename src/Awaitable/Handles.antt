-- ===== src/Awaitable/Handles.antt =====
-- How the sockets of 2015_CppCon/SuperLean/Awaitable.cpp come to the thread pool: the constructors of `Listener` and
-- `Connection`, and the awaiters of `Accept` and `Connect`. A handle is the number of sockets that were made
-- before it; `fn` stands for `io_complete_callback`. What the system's calls return is an input.
use await.Base.{ℕ, ◌+◌, ◌≡◌, Bool, List, [], ◌∷◌, ◌++◌, some, if◌then◌else◌}
use await.Pal.Queue.{Ends, returns, exits, and_then, Process}
use await.Pal.Pool.{associate_handle}
use await.Pal.Threads.{made}

-- The sockets that listen, those of awaiters of accepts and of connects, those of connections, and the
-- handles that operations were started on.
pub record Net : Type 0 where
  pub process : Process
  pub opened : ℕ
  pub listeners : List ℕ
  pub accepting : List ℕ
  pub connecting : List ℕ
  pub connections : List ℕ
  pub started : List ℕ

-- `ThreadPool::AssociateHandle` on a new socket
abbrev pub join_pool : Bool → Bool → ℕ → Net → Ends Net
join_pool modes_ok port_ok fn n =
    and_then (associate_handle modes_ok port_ok n.opened fn n.process)
      (λ p. returns (record n { process = p; opened = n.opened + 1 }))

-- `Listener()`
unfoldable pub listen : Bool → Bool → Bool → Bool → ℕ → Net → Ends Net
listen bind_ok modes_ok port_ok listen_ok fn n =
    if bind_ok
    then and_then (join_pool modes_ok port_ok fn n) (λ m.
      if listen_ok then returns (record m { listeners = n.opened ∷ m.listeners }) else exits 1)
    else exits 1

-- The awaiter of `Accept` on the handle of a listener: its socket joins the pool when it suspends.
unfoldable pub accept_suspend : Bool → Bool → Bool → ℕ → ℕ → Net → Ends Net
accept_suspend modes_ok port_ok pending fn h n = and_then (join_pool modes_ok port_ok fn n) (λ m.
    if pending
    then returns (record m { accepting = n.opened ∷ m.accepting; started = h ∷ m.started })
    else exits 1)

-- `await_resume` of `Accept` hands the socket on, whatever the error is.
unfoldable pub accept_resume : ℕ → List ℕ → Net → Net
accept_resume h others n = record n { accepting = others; connections = h ∷ n.connections }

-- `Connection()`
abbrev pub new_connection : Bool → Bool → Bool → ℕ → Net → Ends Net
new_connection bind_ok modes_ok port_ok fn n =
    if bind_ok then join_pool modes_ok port_ok fn n else exits 1

-- The awaiter of `Connect` has a new `Connection`, and connects it when it suspends.
unfoldable pub connect_suspend : Bool → Bool → Bool → Bool → ℕ → Net → Ends Net
connect_suspend bind_ok modes_ok port_ok pending fn n =
    and_then (new_connection bind_ok modes_ok port_ok fn n) (λ m.
      if pending
      then returns
          (record m { connecting = n.opened ∷ m.connecting; started = n.opened ∷ m.started })
      else exits 1)

-- `await_resume` of `Connect`
unfoldable pub connect_resume : Bool → ℕ → List ℕ → Net → Ends Net
connect_resume err h others n =
    if err
    then exits 1
    else returns (record n { connecting = others; connections = h ∷ n.connections })

pub data Step (fn : ℕ) : Net → Net → Type 0 where
  listens :
      {n n' : Net} (bind_ok modes_ok port_ok listen_ok : Bool)
      → listen bind_ok modes_ok port_ok listen_ok fn n ≡ returns n'
      → Step fn n n'
  accepts :
      {n n' : Net} (before after : List ℕ) (h : ℕ) (modes_ok port_ok pending : Bool)
      → n.listeners ≡ before ++ (h ∷ after)
      → accept_suspend modes_ok port_ok pending fn h n ≡ returns n'
      → Step fn n n'
  accepted :
      {n : Net} (before after : List ℕ) (h : ℕ)
      → n.accepting ≡ before ++ (h ∷ after)
      → Step fn n (accept_resume h (before ++ after) n)
  connects :
      {n n' : Net} (bind_ok modes_ok port_ok pending : Bool)
      → connect_suspend bind_ok modes_ok port_ok pending fn n ≡ returns n'
      → Step fn n n'
  connected :
      {n n' : Net} (before after : List ℕ) (h : ℕ) (err : Bool)
      → n.connecting ≡ before ++ (h ∷ after)
      → connect_resume err h (before ++ after) n ≡ returns n'
      → Step fn n n'
  -- a read or a write of a connection
  goes_on :
      {n : Net} (before after : List ℕ) (h : ℕ)
      → n.connections ≡ before ++ (h ∷ after)
      → Step fn n (record n { started = h ∷ n.started })

-- The runs that start with a pool that `threads` threads serve and no socket.
pub data Reach (fn threads : ℕ) (sync : Bool) : Net → Type 0 where
  begins : Reach fn threads sync (record {
    process = record { queue = some (made threads); sync_completion = sync };
    opened = 0;
    listeners = [];
    accepting = [];
    connecting = [];
    connections = [];
    started = [];
  })
  goes : {n n' : Net} → Reach fn threads sync n → Step fn n n' → Reach fn threads sync n'
