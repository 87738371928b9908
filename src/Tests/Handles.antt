-- ===== src/Tests/Handles.antt =====
-- Runs of the sockets of the three versions of 2015_CppCon/SuperLean.
use await.Base.{◌≡◌, ◌≢◌, none, refl, false, true, [], ◌∷◌, some}
use await.Pal.Queue
use await.Pal.Queue.{returns, exits}
use await.Pal.{WsaResult, io_pending, receive, send}
use await.Pal.Pool
use await.Pal.Threads.{made}
use await.Traditional.Handles
use await.Traditional.Associated.{no_sockets, Associated}
use await.Traditional.Associated as Traditional
use await.Improved.Handles as Improved
use await.Awaitable.Handles as Awaitable
use await.Awaitable.Run.{start_run, end_run, start_main}
use await.Awaitable.Started.{started_net, all_ok}
use await.Awaitable.Exit.{Later, now, then_goes, winsock, awaitable_run_lem}
use await.Awaitable.Known.{AllKnown}
use await.Awaitable.Associated.{sockets-Associated}

-- a listener, and one reader that connects
abbrev listening : Handles.Net
listening = record (no_sockets 2 true) {
  process = record {
    queue = some (record (made 2) { associated = (0, 7) ∷ [] });
    sync_completion = true;
  };
  opened = 1;
  listeners = 0 ∷ [];
}

abbrev connecting : Handles.Net
connecting = record listening {
  process = record {
    queue = some (record (made 2) { associated = (1, 7) ∷ (0, 7) ∷ [] });
    sync_completion = true;
  };
  opened = 2;
  connections = 1 ∷ [];
  started = 1 ∷ [];
}

traditional_ran : Traditional.Reach 7 2 true connecting
unfolding Handles.listen Handles.connect_new Pool.associate_handle Queue.associate
traditional_ran =
    Traditional.goes {n = listening}
      (Traditional.goes {n = no_sockets 2 true} Traditional.begins
        (Handles.listens true true true true refl))
      (Handles.connects true true true true refl)

improved_ran : Improved.Reach 7 2 true connecting
unfolding Improved.listen Improved.connect_new Pool.associate_handle Queue.associate
improved_ran =
    Improved.goes {n = listening}
      (Improved.goes {n = no_sockets 2 true} Improved.begins
        (Improved.listens true true true true refl))
      (Improved.connects true true true true refl)

-- a listener that accepts
abbrev awaiting : Awaitable.Net
awaiting = record {
  process = listening.process;
  opened = 1;
  listeners = 0 ∷ [];
  accepting = [];
  connecting = [];
  connections = [];
  started = [];
}

abbrev accepting : Awaitable.Net
accepting = record awaiting {
  process = connecting.process;
  opened = 2;
  accepting = 1 ∷ [];
  started = 0 ∷ [];
}

awaitable_ran : Awaitable.Reach 7 2 true (Awaitable.accept_resume 1 [] accepting)
unfolding Awaitable.listen Awaitable.accept_suspend Pool.associate_handle Queue.associate
awaitable_ran =
    Awaitable.goes {n = accepting}
      (Awaitable.goes {n = awaiting}
        (Awaitable.goes Awaitable.begins (Awaitable.listens true true true true refl))
        (Awaitable.accepts [] [] 0 true true true refl refl))
      (Awaitable.accepted [] [] 1 refl)

sockets-Associated_example :
    Associated connecting
    × Associated connecting
    × AllKnown (Awaitable.accept_resume 1 [] accepting)
sockets-Associated_example = sockets-Associated traditional_ran improved_ran awaitable_ran

-- two readers, one of whose connects completes
abbrev both_started : Awaitable.Net
both_started = started_net 7 12 false 2

run_went_on :
    Later 7 both_started (record both_started { connecting = 3 ∷ []; connections = 2 ∷ [] })
unfolding Awaitable.connect_resume
run_went_on = then_goes now (Awaitable.connected (3 ∷ []) [] 2 false refl refl)

awaitable_run_lem_example :
    (start_run true
        (λ i. true)
        (λ h. all_ok)
        2
        false
        7
        (record { queue = none; sync_completion = true })
      ≡ returns both_started)
    × (AllKnown (record both_started { connecting = 3 ∷ []; connections = 2 ∷ [] })
        × (end_run (record both_started { connecting = 3 ∷ []; connections = 2 ∷ [] }) ≡ exits 0))
    × (start_main (winsock true) true (λ i. true) (λ h. all_ok) 7
        ≡ returns (started_net 7 10 false 1))
    × ((r : WsaResult) → (receive false r ≢ io_pending) × (send false r ≢ io_pending))
awaitable_run_lem_example =
    awaitable_run_lem 2 false true (λ i. true) (λ h. all_ok) (λ i. refl) (λ h. refl) run_went_on
