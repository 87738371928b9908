-- ===== src/Tests/Sessions.antt =====
-- Runs of 2017_CppCon/live/myclient.cpp and myserver.cpp.
use await.Base.{total, ℕ, ◌≡◌, refl, false, List, [], ◌∷◌, take, arith}
use await.Client
use await.Client.Handlers
use await.Client.Handlers.Stored.{Kept, session-Stored}
use await.Client.Valid.{is_read, is_write}
use await.HandlerAllocator.{simple_allocate, allocate}
use await.Client.Runs.{Reach, begins, goes}
use await.Client.Echo.{Echoes, session-Echoes, OneEach}
use await.Client.Fleet
use await.Client.Totals.{Accounts, ClientReach, opens, proceeds, client-Accounts}
use await.Server
use await.Server.Accepts.{Attends, server-Attends}

abbrev junk : List ℕ
junk = 9 ∷ 9 ∷ 9 ∷ []

abbrev connected : Client.World
connected =
    Client.act (Client.handle_connect false false) (record (Client.started 3 junk) { pending = [] })

-- two bytes come in before the first block is out
abbrev half_done : Client.World
half_done = Client.act (Client.handle_read false 2) (record connected {
  pending = Client.writing Client.two 3 ∷ [];
  memory = Client.store Client.one (7 ∷ 8 ∷ []) connected.memory;
  received = (7 ∷ 8 ∷ []) ∷ [];
})

abbrev swapped : Client.World
swapped =
    Client.act (Client.handle_write false 3)
      (record half_done { pending = []; sent = take 3 (half_done.memory Client.two) ∷ [] })

to_connected : Client.Step (Client.started 3 junk) connected
unfolding Client.started Client.handle_connect
to_connected = Client.connects [] [] false false refl

to_half_done : Client.Step connected half_done
unfolding Client.started Client.handle_connect Client.handle_read
to_half_done =
    Client.reads (Client.writing Client.two 3 ∷ []) [] Client.one 3 (7 ∷ 8 ∷ []) refl (omega arith)
      (omega arith)

to_swapped : Client.Step half_done swapped
unfolding Client.started Client.handle_connect Client.handle_read Client.handle_write
to_swapped = Client.writes [] [] Client.two 3 refl

-- The two bytes go back from the array that they came into.
sends_back : swapped.pending ≡ Client.writing Client.one 2 ∷ Client.reading Client.two 3 ∷ []
unfolding Client.started Client.handle_connect Client.handle_read Client.handle_write
sends_back = refl

ran : Reach 3 junk swapped
ran = goes (goes (goes begins to_connected) to_half_done) to_swapped

session-Echoes_example : Echoes 3 swapped
session-Echoes_example = session-Echoes (omega arith) refl ran

-- every handler has 200 bytes
abbrev sizes : Client.Op → ℕ
sizes op = 200

abbrev first_handlers : Client.Handlers.Handlers
first_handlers = record {
  world = connected;
  reads = Client.Handlers.store_at 1;
  writes = Client.Handlers.store_at 0;
  plain = 1;
}

handlers_ran : Client.Handlers.Runs sizes 3 junk first_handlers
unfolding Client.started Client.handle_connect Client.Handlers.launch_all Client.Handlers.take
    simple_allocate allocate
handlers_ran =
    Client.Handlers.moves Client.Handlers.starts
      (Client.Handlers.completes [] [] Client.connecting connected.pending to_connected refl refl)

session-Stored_example :
    OneEach connected
    × Kept first_handlers (total is_read connected.pending) (total is_write connected.pending)
session-Stored_example = session-Stored sizes (λ op. omega arith) (omega arith) refl handlers_ran

abbrev two_sessions : Client.Fleet.Client
two_sessions = Client.Fleet.new_client 3 (λ i. junk) 2

abbrev one_connected : Client.Fleet.Client
one_connected = record two_sessions { sessions = connected ∷ Client.started 3 junk ∷ [] }

client_ran : ClientReach 3 (λ i. junk) 2 (Client.Fleet.handle_timeout one_connected)
unfolding Client.Fleet.new_client Client.Fleet.new_sessions
client_ran =
    proceeds
      (proceeds opens (
        Client.Fleet.session_steps [] (Client.started 3 junk ∷ []) (Client.started 3 junk) connected
          refl to_connected))
      Client.Fleet.times_out

client-Accounts_example : Accounts 3 (Client.Fleet.handle_timeout one_connected)
client-Accounts_example = client-Accounts (omega arith) (λ i. refl) client_ran

abbrev accepted : Server.Server
accepted = Server.handle_accept false false (record (Server.new_server 2) { accepting = 0 })

abbrev read_two : Server.Peer
read_two = Server.act (Server.handle_read false 2) (record (Server.started false 2) {
  session = Server.store (5 ∷ 6 ∷ []) (Server.started false 2).session;
  pending = [];
  received = (5 ∷ 6 ∷ []) ∷ [];
})

server_ran : Server.Accepts.Reach 2 (record accepted { sessions = read_two ∷ [] })
unfolding Server.new_server Server.start_accept Server.handle_accept Server.started Server.start
    Server.new_session Server.handle_read
server_ran =
    Server.Accepts.proceeds
      (Server.Accepts.proceeds Server.Accepts.opens (Server.accepts 0 false false refl))
      (Server.session_steps [] [] (Server.started false 2) read_two refl
        (Server.reads [] [] 2 (5 ∷ 6 ∷ []) refl (omega arith)))

server-Attends_example : Attends 2 (record accepted { sessions = read_two ∷ [] })
server-Attends_example = server-Attends server_ran
