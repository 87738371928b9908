-- ===== src/Improved/Handles.antt =====
-- How the sockets of 2015_CppCon/SuperLean/Improved.cpp come to the thread pool. Read and Write take the handler of
-- the connection's owner, and the sockets go on as in Traditional.cpp.
use await.Base.{ℕ, ◌+◌, ◌≡◌, Bool, List, ◌∷◌, ◌++◌, if◌then◌else◌}
use await.Pal.Queue.{Ends, returns, exits, and_then}
use await.Pal.Pool.{associate_handle}
use await.Traditional.Handles.{Net}
use await.Traditional.Handles as Traditional
use await.Traditional.Associated.{Associated, Step-Associated, start-Associated, no_sockets}

-- `Listener()`
unfoldable pub listen : Bool → Bool → Bool → Bool → ℕ → Net → Ends Net
listen bind_ok modes_ok port_ok listen_ok fn n =
    if bind_ok
    then and_then (associate_handle modes_ok port_ok n.opened fn n.process) (λ p.
      if listen_ok
      then returns
          (record n { process = p; opened = n.opened + 1; listeners = n.opened ∷ n.listeners })
      else exits 1)
    else exits 1

-- `Listener::Accept`, with the socket of the new handler
unfoldable pub accept_on : Bool → ℕ → Net → Ends Net
accept_on pending h n =
    if pending
    then returns (record n {
      opened = n.opened + 1;
      waiting = n.opened ∷ n.waiting;
      started = h ∷ n.started;
    })
    else exits 1

-- `CompletionWithConnection::Invoke`, and the first write of the writer
unfoldable pub invoke : Bool → Bool → ℕ → ℕ → List ℕ → Net → Ends Net
invoke modes_ok port_ok fn h others n =
    and_then (associate_handle modes_ok port_ok h fn n.process) (λ p. returns (record n {
      process = p;
      waiting = others;
      connections = h ∷ n.connections;
      started = h ∷ n.started;
    }))

-- `Connection::Connect`, on the new socket of a reader
unfoldable pub connect_new : Bool → Bool → Bool → Bool → ℕ → Net → Ends Net
connect_new bind_ok modes_ok port_ok pending fn n =
    if bind_ok
    then and_then (associate_handle modes_ok port_ok n.opened fn n.process) (λ p.
      if pending
      then returns (record n {
        process = p;
        opened = n.opened + 1;
        connections = n.opened ∷ n.connections;
        started = n.opened ∷ n.started;
      })
      else exits 1)
    else exits 1

pub data Step (fn : ℕ) : Net → Net → Type 0 where
  listens :
      {n n' : Net} (bind_ok modes_ok port_ok listen_ok : Bool)
      → listen bind_ok modes_ok port_ok listen_ok fn n ≡ returns n'
      → Step fn n n'
  accepts :
      {n n' : Net} (before after : List ℕ) (h : ℕ) (pending : Bool)
      → n.listeners ≡ before ++ (h ∷ after)
      → accept_on pending h n ≡ returns n'
      → Step fn n n'
  invokes :
      {n n' : Net} (before after : List ℕ) (h : ℕ) (modes_ok port_ok : Bool)
      → n.waiting ≡ before ++ (h ∷ after)
      → invoke modes_ok port_ok fn h (before ++ after) n ≡ returns n'
      → Step fn n n'
  connects :
      {n n' : Net} (bind_ok modes_ok port_ok pending : Bool)
      → connect_new bind_ok modes_ok port_ok pending fn n ≡ returns n'
      → Step fn n n'
  -- a further read or write of a connection
  goes_on :
      {n : Net} (before after : List ℕ) (h : ℕ)
      → n.connections ≡ before ++ (h ∷ after)
      → Step fn n (record n { started = h ∷ n.started })

pub data Reach (fn threads : ℕ) (sync : Bool) : Net → Type 0 where
  begins : Reach fn threads sync (no_sockets threads sync)
  goes : {n n' : Net} → Reach fn threads sync n → Step fn n n' → Reach fn threads sync n'

-- Each step is one of Traditional.cpp.
traditional_step : {fn : ℕ} {n n' : Net} → Step fn n n' → Traditional.Step fn n n'
unfolding listen accept_on invoke connect_new Traditional.listen Traditional.accept_on
    Traditional.invoke Traditional.connect_new
traditional_step (listens bind_ok modes_ok port_ok listen_ok e) =
    Traditional.listens bind_ok modes_ok port_ok listen_ok e
traditional_step (accepts before after h pending at e) =
    Traditional.accepts before after h pending at e
traditional_step (invokes before after h modes_ok port_ok at e) =
    Traditional.invokes before after h modes_ok port_ok at e
traditional_step (connects bind_ok modes_ok port_ok pending e) =
    Traditional.connects bind_ok modes_ok port_ok pending e
traditional_step (goes_on before after h at) = Traditional.goes_on before after h at

pub improved-Associated :
    {fn threads : ℕ} {sync : Bool} {n : Net} → Reach fn threads sync n → Associated n
improved-Associated {threads = threads} {sync = sync} begins = start-Associated threads sync
improved-Associated (goes r s) = Step-Associated (traditional_step s) (improved-Associated r)
