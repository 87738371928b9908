-- ===== src/Tests/Rounds.antt =====
-- A session of myclient.cpp and one of myserver.cpp, joined.
use await.Base.{
  ◌≡◌, refl, ◌+◌, ◌++◌, List, Bool, false, [], ◌∷◌, ◌%◌, Option, none, true, ℕ, ◌<◌, some, length,
  flat, get_elem?, arith,
}
use await.Client
use await.Server
use await.Link.{Since, now, then_on, ClientGave, Connected}
use await.Hard
use await.Easy
use await.Easy.Futures.{BoostFutures}
use await.Easy.Same.{run_futures}
use await.Link.Coroutines.{Joined, of_easy, ServedBy, by_callbacks, by_coroutine, served_round_lem}

abbrev connected : Client.World
connected =
    Client.act (Client.handle_connect false false)
      (record (Client.started 3 (9 ∷ 9 ∷ 9 ∷ [])) { pending = [] })

-- Two bytes are back, and the write is not over.
abbrev answered : Client.World
answered = Client.act (Client.handle_read false 2) (record connected {
  pending = Client.writing Client.two 3 ∷ [];
  memory = Client.store Client.one (0 ∷ 1 ∷ []) connected.memory;
  received = (0 ∷ 1 ∷ []) ∷ [];
})

client_ran : Since Client.Step (Client.started 3 (9 ∷ 9 ∷ 9 ∷ [])) answered
unfolding Client.started Client.handle_connect Client.handle_read
client_ran =
    then_on
      (then_on {b = Client.started 3 (9 ∷ 9 ∷ 9 ∷ [])} now (Client.connects [] [] false false refl))
      (Client.reads (Client.writing Client.two 3 ∷ []) [] Client.one 3 (0 ∷ 1 ∷ []) refl
        (omega arith) (omega arith))

-- Then the write fails, of which the first two bytes have gone out.
abbrev cut : Client.World
cut =
    Client.act (Client.handle_write true 0)
      (record answered { pending = []; failures = answered.failures + 1 })

cut_ran : Since Client.Step answered cut
unfolding Client.started Client.handle_connect Client.handle_read Client.handle_write
cut_ran = then_on now (Client.write_fails [] [] Client.two 3 0 refl)

abbrev read_two : Server.Peer
read_two = Server.act (Server.handle_read false 2) (record (Server.started false 2) {
  session = Server.store (0 ∷ 1 ∷ []) (Server.started false 2).session;
  pending = [];
  received = (0 ∷ 1 ∷ []) ∷ [];
})

server_ran : Since Server.Step (Server.started false 2) read_two
unfolding Server.started Server.start Server.new_session Server.handle_read
server_ran = then_on now (Server.reads [] [] 2 (0 ∷ 1 ∷ []) refl (omega arith))

-- so does the server's, of which both have
abbrev answer_cut : Server.Peer
answer_cut = Server.act (Server.handle_write true) (record read_two { pending = [] })

answer_ran : Since Server.Step read_two answer_cut
unfolding Server.started Server.start Server.new_session Server.handle_read
answer_ran = then_on now (Server.write_fails [] [] 2 refl)

gave_two : ClientGave 3 (9 ∷ 9 ∷ 9 ∷ []) cut (0 ∷ 1 ∷ [])
unfolding Client.started Client.handle_connect Client.handle_read
gave_two = record {
  moment = answered;
  before = client_ran;
  since = cut_ran;
  given = (2 ∷ [], refl);
}

joined : Connected 3 (9 ∷ 9 ∷ 9 ∷ []) 2 cut answer_cut
unfolding Client.started Client.handle_connect Client.handle_read Client.handle_write Server.started
    Server.start Server.new_session Server.handle_read Server.handle_write
joined = record {
  to_server = gave_two;
  to_client = record {
    failed = false;
    moment = read_two;
    before = server_ran;
    since = answer_ran;
    given = ([], refl);
  };
}

abbrev no_futures : BoostFutures
no_futures = record {
  Future = Option (Option ℕ);
  waiting = none;
  set_value = λ n. some (some n);
  set_exception = some none;
  is_ready = λ f. elim f [ none ↦ false | some r ↦ true ];
  get = λ f. elim f [ none ↦ none | some r ↦ r ];
  waiting-is_ready = refl;
  value-is_ready = λ n. refl;
  exception-is_ready = refl;
  value-get = λ n. refl;
  exception-get = refl;
}

abbrev easy_before : List (Bool × Hard.Completion)
easy_before = (true, Hard.read_done (0 ∷ 1 ∷ [])) ∷ []

abbrev easy_after : List (Bool × Hard.Completion)
easy_after = (false, Hard.fails) ∷ []

easy-Joined :
    Joined no_futures 3
      (9 ∷ 9 ∷ 9 ∷ [])
      2
      cut
      (run_futures no_futures false 2 (easy_after ++ easy_before))
unfolding Client.started Client.handle_connect Client.handle_read Client.handle_write run_futures
    Easy.session Easy.complete Easy.Futures.co_await Easy.Futures.complete_size
easy-Joined = record {
  moment = run_futures no_futures false 2 easy_before;
  runs = of_easy false easy_after easy_before;
  to_server = gave_two;
  to_client = ([], refl);
}

-- the session of the other test is served by easy.cpp as well
easy_serves : ServedBy no_futures 3 (9 ∷ 9 ∷ 9 ∷ []) 2 cut
easy_serves = by_coroutine easy-Joined

served_round_lem_example :
    ClientGave 3 (9 ∷ 9 ∷ 9 ∷ []) cut (flat cut.received)
    × ((i : ℕ)
        → i < length (flat cut.received)
        → get_elem? (flat cut.received) i ≡ some (i % 3 % 128))
served_round_lem_example =
    served_round_lem {b = no_futures} {server_size = 2} (omega arith) refl (by_callbacks joined)
