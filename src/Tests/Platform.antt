-- ===== src/Tests/Platform.antt =====
-- Runs of PAL.cpp and of the servers of 2015_CppCon/SuperLean.
use await.Base.{◌≡◌, refl, arith, ◌<◌, Bag, put, true, false, [], ◌∷◌, none, some}
use await.Pal.{success, socket_error, io_pending, receive}
use await.Pal.Notify
use await.Pal.Notify.Once
use await.Pal.Notify.Runs.{calls-KnownOnce}
use await.Pal.Delivery.Refine.{Spec, view}
use await.Pal.Delivery.Serve.{pool-Refines}
use await.Pal.Sockets
use await.Pal.Ownership
use await.Pal.Queue
use await.Pal.Pool
use await.Pal.Threads.{made}
use await.Pal.Calls
use await.Pal.Delivery
use await.Traditional
use await.Improved
use await.Awaitable

-- one socket that was moved, and what it was moved from has gone
abbrev moved : Sockets.Process
moved = record { sockets = record { handle = some 0 } ∷ []; closed = []; opened = 1 }

sockets_ran : Ownership.Reach moved
unfolding Sockets.new_socket
sockets_ran =
    Ownership.goes
      (Ownership.goes (Ownership.goes Ownership.begins (Sockets.creates true true true refl))
        (Sockets.moves [] [] (record { handle = some 0 }) refl))
      (Sockets.destroys (record { handle = some 0 } ∷ []) [] (record { handle = none }) refl)

sockets-Owned_example : Ownership.Owned moved
sockets-Owned_example = Ownership.sockets-Owned sockets_ran

abbrev start : Delivery.World
start = record {
  process = record { queue = none; sync_completion = true };
  submitted = [];
  called = [];
}

abbrev with_pool : Delivery.World
with_pool = record start { process = record { queue = some (made 2); sync_completion = false } }

abbrev packet : Queue.Packet
packet = record { key = 7; overlapped = some 3; error = 0; bytes = 10 }

abbrev posted : Delivery.World
posted = record {
  process = record {
    queue = some (record (made 2) { packets = packet ∷ [] });
    sync_completion = false;
  };
  submitted = Queue.calls 7 3 0 10 ∷ [];
  called = [];
}

abbrev served : Delivery.World
served = record {
  process = record { queue = some (made 2); sync_completion = false };
  submitted = Queue.calls 7 3 0 10 ∷ [];
  called = Queue.calls 7 3 0 10 ∷ [];
}

pool_ran : Delivery.Reach served
unfolding Pool.new_pool Queue.new_queue Pool.post Queue.thread_turn
pool_ran =
    Delivery.goes
      (Delivery.goes {w = with_pool}
        (Delivery.goes {w = start} (Delivery.begins true)
          (Delivery.creates true (λ i. true) 2 false refl))
        (Delivery.posts true 3 10 6 refl))
      (Delivery.serves [] [] packet refl (omega arith) refl refl)

pool-Delivers_example : Delivery.Delivers served
pool-Delivers_example = Delivery.Runs.pool-Delivers pool_ran

abbrev waits : Delivery.World
waits = record with_pool {
  process = record with_pool.process { queue = some (record (made 2) { packets = packet ∷ [] }) };
  submitted = Queue.calls 7 3 0 10 ∷ [];
}

waiting_ran : Delivery.Reach waits
unfolding Pool.new_pool Queue.new_queue Pool.post
waiting_ran =
    Delivery.goes {w = with_pool}
      (Delivery.goes {w = start} (Delivery.begins true)
        (Delivery.creates true (λ i. true) 2 false refl))
      (Delivery.posts true 3 10 6 refl)

pool-Refines_example :
    ((w' : Delivery.World) → Delivery.Step waits w' → Spec (view waits) (view w'))
    × ((q : Queue.CompletionQueue)
        → waits.process.queue ≡ some q
        → 0 < q.thread_count
        → (t : Queue.Turn) (b : Bag Queue.Turn) → (view waits).waiting ≡ put t b
        → (0 < q.threads)
          × (w' : Delivery.World) × Delivery.Step waits w'
          × (view w'
              ≡ record { waiting = b; submitted = waits.submitted; called = t ∷ waits.called }))
pool-Refines_example = pool-Refines waiting_ran

-- one read that a packet tells of, as the pool has no synchronous mode, and one that fails
abbrev with_handle : Notify.World
with_handle = record {
  process = record {
    queue = some (record (made 2) { associated = (4, 7) ∷ [] });
    sync_completion = false;
  };
  handles = record { number = 4; key = 7; skips = false } ∷ [];
  made = 0;
  told = [];
  failed = [];
  under_way = [];
  called = [];
}

abbrev received : Notify.World
received = record with_handle {
  process = record with_handle.process {
    queue = some (record (made 2) {
      associated = (4, 7) ∷ [];
      packets = record { key = 7; overlapped = some 0; error = 0; bytes = 10 } ∷ [];
    });
  };
  made = 1;
}

abbrev received_twice : Notify.World
received_twice = record received { made = 2; failed = 1 ∷ [] }

received_ran : Notify.Reach received_twice
unfolding Pool.new_pool Queue.new_queue Pool.associate_handle Queue.associate receive
received_ran =
    Notify.goes {w = received}
      (Notify.goes {w = with_handle}
        (Notify.goes
          (Notify.goes (Notify.begins true) (Notify.creates true (λ i. true) 2 false refl))
          (Notify.associates true true false 4 6 refl))
        (Notify.receives [] [] (record { number = 4; key = 7; skips = false }) (success 10) refl
          tt))
      (Notify.receives [] [] (record { number = 4; key = 7; skips = false }) (socket_error 10054)
        refl (λ e. absurd (omega (arith, e))))

calls-KnownOnce_example : Notify.Once.KnownOnce received_twice
calls-KnownOnce_example = calls-KnownOnce received_ran

abbrev one_writer : Traditional.Accept.Server
one_writer = record { accepting = 1; writers = Traditional.new_writer false (success 4096) ∷ [] }

traditional_ran : Traditional.Attends.Reach false one_writer
unfolding Traditional.Accept.start Traditional.Accept.accept Traditional.Accept.on_accept
traditional_ran =
    Traditional.Attends.goes Traditional.Attends.begins
      (Traditional.Accept.accepts 0 false (success 4096) refl refl)

abbrev one_improved : Improved.Accept.Server
one_improved = record { accepting = 1; writers = Improved.new_writer true (success 4096) ∷ [] }

improved_ran : Improved.Attends.Reach true one_improved
unfolding Improved.Accept.start Improved.Accept.accept Improved.Accept.on_accept
improved_ran =
    Improved.Attends.goes Improved.Attends.begins
      (Improved.Accept.accepts 0 false (success 4096) refl refl)

servers-Attend_example :
    Traditional.Attends.Attends one_writer × Improved.Attends.Attends one_improved
servers-Attend_example = Improved.Attends.servers-Attend traditional_ran improved_ran

-- an accept that failed with 64: its client runs into an error and is destroyed
abbrev failed_client : Awaitable.Accept.Server
failed_client = record {
  accepting = 1;
  opened = 2;
  clients = record { handle = 0; connected = false; client = Awaitable.destroyed } ∷ [];
}

awaitable_ran : Awaitable.Serves.Reach (64 ∷ []) failed_client
unfolding Awaitable.Accept.server Awaitable.Accept.resume_server Awaitable.Accept.accept_suspend
    Calls.accept
awaitable_ran =
    Awaitable.Serves.accepts {errors = []} 0 64 false (socket_error 10057 ∷ []) false io_pending
      (Awaitable.Serves.begins false io_pending refl) refl refl

server-Counts_example : Awaitable.Serves.Counts (64 ∷ []) failed_client
server-Counts_example = Awaitable.Serves.server-Counts awaitable_ran
