-- ===== src/Traditional/Handles.antt =====
-- How the sockets of 2015_CppCon/SuperLean/Traditional.cpp come to the thread pool: the constructor of `Listener`,
-- `Accept`, the handler of an accept, and `Connect`. A handle is the number of sockets that were made
-- before it; `fn` stands for `io_complete_callback`. What the system's calls return is an input.
use await.Base.{ℕ, ◌+◌, ◌≡◌, Bool, List, ◌∷◌, ◌++◌, if◌then◌else◌}
use await.Pal.Queue.{Ends, returns, exits, and_then, Process}
use await.Pal.Pool.{associate_handle}

-- The sockets that listen, those in the handlers of accepts, those of connections, and the handles that
-- operations were started on.
pub record Net : Type 0 where
  pub process : Process
  pub opened : ℕ
  pub listeners : List ℕ
  pub waiting : List ℕ
  pub connections : List ℕ
  pub started : List ℕ

-- `Listener()`
unfoldable pub listen : Bool → Bool → Bool → Bool → ℕ → Net → Ends Net
listen bind_ok modes_ok port_ok listen_ok fn n =
    if bind_ok
    then and_then (associate_handle modes_ok port_ok n.opened fn n.process) (λ p.
      if listen_ok
      then returns
          (record n { process = p; opened = n.opened + 1; listeners = n.opened ∷ n.listeners })
      else exits 1)
    else exits 1

-- `Listener::Accept`, on the handle of a listener, with the socket of the new handler
unfoldable pub accept_on : Bool → ℕ → Net → Ends Net
accept_on pending h n =
    if pending
    then returns (record n {
      opened = n.opened + 1;
      waiting = n.opened ∷ n.waiting;
      started = h ∷ n.started;
    })
    else exits 1

-- `CompletionWithConnection::Invoke` without an error, for the socket `h` of the handler, and the first write of the
-- connection that it becomes
unfoldable pub invoke : Bool → Bool → ℕ → ℕ → List ℕ → Net → Ends Net
invoke modes_ok port_ok fn h others n =
    and_then (associate_handle modes_ok port_ok h fn n.process) (λ p. returns (record n {
      process = p;
      waiting = others;
      connections = h ∷ n.connections;
      started = h ∷ n.started;
    }))

-- `Connection::Connect`, on a new socket
unfoldable pub connect_new : Bool → Bool → Bool → Bool → ℕ → Net → Ends Net
connect_new bind_ok modes_ok port_ok pending fn n =
    if bind_ok
    then and_then (associate_handle modes_ok port_ok n.opened fn n.process) (λ p.
      if pending
      then returns (record n {
        process = p;
        opened = n.opened + 1;
        connections = n.opened ∷ n.connections;
        started = n.opened ∷ n.started;
      })
      else exits 1)
    else exits 1

pub data Step (fn : ℕ) : Net → Net → Type 0 where
  listens :
      {n n' : Net} (bind_ok modes_ok port_ok listen_ok : Bool)
      → listen bind_ok modes_ok port_ok listen_ok fn n ≡ returns n'
      → Step fn n n'
  accepts :
      {n n' : Net} (before after : List ℕ) (h : ℕ) (pending : Bool)
      → n.listeners ≡ before ++ (h ∷ after)
      → accept_on pending h n ≡ returns n'
      → Step fn n n'
  invokes :
      {n n' : Net} (before after : List ℕ) (h : ℕ) (modes_ok port_ok : Bool)
      → n.waiting ≡ before ++ (h ∷ after)
      → invoke modes_ok port_ok fn h (before ++ after) n ≡ returns n'
      → Step fn n n'
  connects :
      {n n' : Net} (bind_ok modes_ok port_ok pending : Bool)
      → connect_new bind_ok modes_ok port_ok pending fn n ≡ returns n'
      → Step fn n n'
  -- a further read or write of a connection
  goes_on :
      {n : Net} (before after : List ℕ) (h : ℕ)
      → n.connections ≡ before ++ (h ∷ after)
      → Step fn n (record n { started = h ∷ n.started })
