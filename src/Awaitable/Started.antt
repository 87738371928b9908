-- ===== src/Awaitable/Started.antt =====
-- What `run` of Awaitable.cpp has started before it sleeps.
use await.Base.{
  ℕ, zero, suc, ◌+◌, ◌≡◌, refl, ap, ◌∙◌, Bool, true, false, List, [], ◌∷◌, some, arith,
}
use await.Pal.Queue.{returns, Process, associate}
use await.Pal.Pool.{associate_handle}
use await.Pal.Threads.{made}
use await.Awaitable.Handles.{
  Net, listen, accept_suspend, connect_suspend, listens, accepts, connects, Reach, begins, goes,
}
use await.Awaitable.Run.{Answers, no_sockets, start_server, start_readers}

-- the handles 0 of the listener, 1 of the accept, and those of `j` readers
abbrev pub joined : ℕ → ℕ → List (ℕ × ℕ)
joined fn zero = (1, fn) ∷ (0, fn) ∷ []
joined fn (suc j) = (j + 2, fn) ∷ joined fn j

abbrev pub readers_at : ℕ → List ℕ → List ℕ
readers_at zero l = l
readers_at (suc j) l = (j + 2) ∷ readers_at j l

-- the program with `threads` threads when `j` readers have been started
abbrev pub started_net : ℕ → ℕ → Bool → ℕ → Net
started_net fn threads sync j = record {
  process = record {
    queue = some (record (made threads) { associated = joined fn j });
    sync_completion = sync;
  };
  opened = j + 2;
  listeners = 0 ∷ [];
  accepting = 1 ∷ [];
  connecting = readers_at j [];
  connections = [];
  started = readers_at j (0 ∷ []);
}

abbrev pub all_ok : Answers
all_ok = record { bind_ok = true; modes_ok = true; port_ok = true; last_ok = true }

connects-lem :
    (fn threads : ℕ) (sync : Bool) (j : ℕ)
    → connect_suspend true true true true fn (started_net fn threads sync j)
      ≡ returns (started_net fn threads sync (suc j))
unfolding connect_suspend associate_handle associate
connects-lem fn threads true j =
    ap (λ o. returns (record (started_net fn threads true (suc j)) { opened = o })) (omega arith)
connects-lem fn threads false j =
    ap (λ o. returns (record (started_net fn threads false (suc j)) { opened = o })) (omega arith)

pub server-lem :
    (fn threads : ℕ) (sync : Bool)
    → let p : Process = record { queue = some (made threads); sync_completion = sync } in
      start_server all_ok all_ok fn (no_sockets p) ≡ returns (started_net fn threads sync 0)
unfolding start_server listen accept_suspend associate_handle associate
server-lem fn threads true = refl
server-lem fn threads false = refl

pub readers-lem :
    (answers : ℕ → Answers) (all : (h : ℕ) → answers h ≡ all_ok) (fn threads : ℕ) (sync : Bool)
    (left j : ℕ)
    → start_readers answers left fn (started_net fn threads sync j)
      ≡ returns (started_net fn threads sync (j + left))
unfolding start_readers
readers-lem answers all fn threads sync zero j =
    ap (λ k. returns (started_net fn threads sync k)) (omega arith)
readers-lem answers all fn threads sync (suc left) j =
    rw (all (j + 2), connects-lem fn threads sync j)
      (readers-lem answers all fn threads sync left (suc j)
        ∙ ap (λ k. returns (started_net fn threads sync k)) (omega arith))

-- the listener before its first accept
abbrev pub listening_net : ℕ → ℕ → Bool → Net
listening_net fn threads sync =
    record (no_sockets (record {
      queue = some (record (made threads) { associated = (0, fn) ∷ [] });
      sync_completion = sync;
    })) { opened = 1; listeners = 0 ∷ [] }

listening-Reach :
    (fn threads : ℕ) (sync : Bool) → Reach fn threads sync (listening_net fn threads sync)
unfolding listen associate_handle associate
listening-Reach fn threads true = goes begins (listens true true true true refl)
listening-Reach fn threads false = goes begins (listens true true true true refl)

pub started-Reach :
    (fn threads : ℕ) (sync : Bool) (j : ℕ) → Reach fn threads sync (started_net fn threads sync j)
unfolding accept_suspend associate_handle associate
started-Reach fn threads true zero =
    goes (listening-Reach fn threads true) (accepts [] [] 0 true true true refl refl)
started-Reach fn threads false zero =
    goes (listening-Reach fn threads false) (accepts [] [] 0 true true true refl refl)
started-Reach fn threads sync (suc j) =
    goes (started-Reach fn threads sync j)
      (connects true true true true (connects-lem fn threads sync j))
