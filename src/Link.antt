-- ===== src/Link.antt =====
-- A session of 2017_CppCon/live/myclient.cpp and the session of myserver.cpp that it is connected to: what
-- each has given to its end of the connection, and what it has got from there.
pub mod Round
pub mod Coroutines
use await.Base.{ℕ, Bool, List, [], ◌∷◌, ◌++◌, take, flat, IsPrefix}
use await.Client
use await.Server

-- the bytes of the writes under way
abbrev pub client_writes : (Client.Block → List ℕ) → List Client.Op → List (List ℕ)
client_writes memory [] = []
client_writes memory (Client.connecting ∷ ops) = client_writes memory ops
client_writes memory (Client.reading b n ∷ ops) = client_writes memory ops
client_writes memory (Client.writing b n ∷ ops) = take n (memory b) ∷ client_writes memory ops
client_writes memory (Client.closing ∷ ops) = client_writes memory ops

abbrev pub server_writes : List ℕ → List Server.Op → List (List ℕ)
server_writes buf [] = []
server_writes buf (Server.reading n ∷ ops) = server_writes buf ops
server_writes buf (Server.writing n ∷ ops) = take n buf ∷ server_writes buf ops
server_writes buf (Server.destroying ∷ ops) = server_writes buf ops

-- The bytes of the writes that are over and of those under way. A write that fails is in neither, but what it
-- gave to the connection was offered before it failed.
abbrev pub client_offers : Client.World → List ℕ
client_offers w = flat (w.sent ++ client_writes w.memory w.pending)

abbrev pub server_offers : Server.Peer → List ℕ
server_offers p = flat (p.sent ++ server_writes p.session.buf p.pending)

-- what a state comes to in some steps
pub data Since {ℓ} {A : Type ℓ} (R : A → A → Type 0) (a : A) : A → Type ℓ where
  now : Since R a a
  then_on : {b c : A} → Since R a b → R b c → Since R a c

-- Bytes that the client's session has given to the connection, at some moment of its run so far.
pub record ClientGave (size : ℕ) (junk : List ℕ) (w : Client.World) (bytes : List ℕ) : Type 0 where
  pub moment : Client.World
  pub before : Since Client.Step (Client.started size junk) moment
  pub since : Since Client.Step moment w
  pub given : IsPrefix bytes (client_offers moment)

-- Bytes that the server's session has given to the connection, at some moment from its start on.
pub record ServerGave (size : ℕ) (p : Server.Peer) (bytes : List ℕ) : Type 0 where
  pub failed : Bool
  pub moment : Server.Peer
  pub before : Since Server.Step (Server.started failed size) moment
  pub since : Since Server.Step moment p
  pub given : IsPrefix bytes (server_offers moment)

-- What a TCP connection promises: each end gets the bytes that were given to the other end, in order and
-- with none left out, up to some point, which may be inside a write, also inside one that has failed.
pub record Connected (size : ℕ) (junk : List ℕ) (server_size : ℕ) (w : Client.World)
    (p : Server.Peer) : Type 0 where
  pub to_server : ClientGave size junk w (flat p.received)
  pub to_client : ServerGave server_size p (flat w.received)
