-- ===== src/Awaitable/Exit.antt =====
-- How the program of main.cpp starts and ends.
use await.Base.{
  ℕ, ◌+◌, ◌*◌, ◌≡◌, ◌≢◌, refl, ap, subst, ◌∙◌, Bool, Bool-cases, inl, inr, true, false, List, ◌∷◌,
  ◌++◌, Option, none, some, ltb, ltb→lt, arith, if◌then◌else◌,
}
use await.Pal.{WsaResult, success, socket_error, io_pending, receive, send}
use await.Pal.Queue.{returns, exits, overruns, and_then, Process, CompletionQueue, stop}
use await.Pal.Effects.{and_then-returns}
use await.Pal.Pool.{associate_handle, destroy_pool}
use await.Pal.Threads.{made, readers_pool_fit, readers_pool_over}
use await.Traditional.Known.{known, associate_handle-known}
use await.Awaitable.Handles.{
  Net, join_pool, listen, accept_suspend, accept_resume, connect_suspend, connect_resume, Step,
  listens, accepts, accepted, connects, connected, goes_on, Reach, goes,
}
use await.Awaitable.Known.{AllKnown, awaitable-AllKnown, chosen}
use await.Awaitable.Run.{Answers, start_run, end_run, Startup, start_sockets, start_main}
use await.Awaitable.Started.{joined, started_net, all_ok, server-lem, readers-lem, started-Reach}

-- what may happen while `run` sleeps
pub data Later (fn : ℕ) (n : Net) : Net → Type 0 where
  now : Later fn n n
  then_goes : {m m' : Net} → Later fn n m → Step fn m m' → Later fn n m'

Later-Reach :
    {fn threads : ℕ} {sync : Bool} {n m : Net}
    → Reach fn threads sync n
    → Later fn n m
    → Reach fn threads sync m
Later-Reach r now = r
Later-Reach r (then_goes l s) = goes (Later-Reach r l) s

abbrev pub HasPool : Net → Type 0
HasPool n = (q : CompletionQueue) × (n.process.queue ≡ some q)

pool_of :
    (o : Option CompletionQueue) (x : ℕ × ℕ) (l : List (ℕ × ℕ))
    → known o ≡ x ∷ l
    → (q : CompletionQueue) × (o ≡ some q)
pool_of none x l e = absurd (cc)
pool_of (some q) x l e = (q, refl)

join_pool-HasPool :
    (modes_ok port_ok : Bool) (fn : ℕ) (n m : Net)
    → join_pool modes_ok port_ok fn n ≡ returns m
    → HasPool m
join_pool-HasPool modes_ok port_ok fn n m e =
    let next = λ (p : Process). record n { process = p; opened = n.opened + 1 } in
    let (p, made, e') =
      and_then-returns (associate_handle modes_ok port_ok n.opened fn n.process)
        (λ p. returns (next p)) m e in
    let same : next p ≡ m = cc in
    subst HasPool same (
      pool_of p.queue (n.opened, fn) (known n.process.queue)
        (associate_handle-known modes_ok port_ok n.opened fn n.process p made))

joins-HasPool :
    (modes_ok port_ok last_ok : Bool) (fn : ℕ) (n n' : Net) (next : Net → Net)
    → ((m : Net) → HasPool m → HasPool (next m))
    → and_then
        (join_pool modes_ok port_ok fn n)
        (λ m. if last_ok then returns (next m) else exits 1)
      ≡ returns n'
    → HasPool n'
joins-HasPool modes_ok port_ok last_ok fn n n' next keeps e =
    let (m, joined_m, e') =
      and_then-returns (join_pool modes_ok port_ok fn n)
        (λ m. if last_ok then returns (next m) else exits 1) n' e in
    subst HasPool (chosen last_ok (next m) n' e')
      (keeps m (join_pool-HasPool modes_ok port_ok fn n m joined_m))

listens-HasPool :
    (bind_ok modes_ok port_ok listen_ok : Bool) (fn : ℕ) (n n' : Net)
    → listen bind_ok modes_ok port_ok listen_ok fn n ≡ returns n'
    → HasPool n'
unfolding listen
listens-HasPool false modes_ok port_ok listen_ok fn n n' e = absurd (cc)
listens-HasPool true modes_ok port_ok listen_ok fn n n' e =
    joins-HasPool modes_ok port_ok listen_ok fn n n'
      (λ m. record m { listeners = n.opened ∷ m.listeners }) (λ m h. h) e

connects-HasPool :
    (bind_ok modes_ok port_ok pending : Bool) (fn : ℕ) (n n' : Net)
    → connect_suspend bind_ok modes_ok port_ok pending fn n ≡ returns n'
    → HasPool n'
unfolding connect_suspend
connects-HasPool false modes_ok port_ok pending fn n n' e = absurd (cc)
connects-HasPool true modes_ok port_ok pending fn n n' e =
    joins-HasPool modes_ok port_ok pending fn n n'
      (λ m. record m { connecting = n.opened ∷ m.connecting; started = n.opened ∷ m.started })
      (λ m h. h) e

connected-HasPool :
    (err : Bool) (h : ℕ) (others : List ℕ) (n n' : Net)
    → connect_resume err h others n ≡ returns n'
    → HasPool n
    → HasPool n'
unfolding connect_resume
connected-HasPool true h others n n' e p = absurd (cc)
connected-HasPool false h others n n' e p =
    let next : Net = record n { connecting = others; connections = h ∷ n.connections } in
    let same : next ≡ n' = cc in subst HasPool same p

Step-HasPool : {fn : ℕ} {n m : Net} → Step fn n m → HasPool n → HasPool m
unfolding accept_suspend accept_resume
Step-HasPool {fn = fn} {n = n} {m = m} (listens bind_ok modes_ok port_ok listen_ok e) p =
    listens-HasPool bind_ok modes_ok port_ok listen_ok fn n m e
Step-HasPool {fn = fn} {n = n} {m = m} (accepts before after h modes_ok port_ok pending at e) p =
    joins-HasPool modes_ok port_ok pending fn n m
      (λ m. record m { accepting = n.opened ∷ m.accepting; started = h ∷ m.started }) (λ m h. h) e
Step-HasPool (accepted before after h at) p = p
Step-HasPool {fn = fn} {n = n} {m = m} (connects bind_ok modes_ok port_ok pending e) p =
    connects-HasPool bind_ok modes_ok port_ok pending fn n m e
Step-HasPool {n = n} {m = m} (connected before after h err at e) p =
    connected-HasPool err h (before ++ after) n m e p
Step-HasPool (goes_on before after h at) p = p

Later-HasPool : {fn : ℕ} {n m : Net} → HasPool n → Later fn n m → HasPool m
Later-HasPool p now = p
Later-HasPool p (then_goes l s) = Step-HasPool s (Later-HasPool p l)

-- The destructor of a pool that is there ends the process.
end_run_exits : (n : Net) → HasPool n → end_run n ≡ exits 0
unfolding end_run destroy_pool stop
end_run_exits n (q, e) = rw e refl

start_run_lem :
    (fn readers : ℕ) (sync sync_completion : Bool) (ok : ℕ → Bool) (answers : ℕ → Answers)
    → ((i : ℕ) → ok i ≡ true)
    → ((h : ℕ) → answers h ≡ all_ok)
    → start_run true ok answers readers sync fn
        (record { queue = none; sync_completion = sync_completion })
      ≡ (if ltb 28 readers
          then overruns
          else returns
              (started_net fn (readers * 2 + 8) (if sync then sync_completion else false) readers))
unfolding start_run
start_run_lem fn readers sync sync_completion ok answers all_threads all =
    elim (Bool-cases (ltb 28 readers)) [
      | inl t ↦
          rw
            (t, readers_pool_over ok all_threads readers sync sync_completion (ltb→lt 28 readers t))
            refl
      | inr f ↦
          (let threads = readers * 2 + 8 in
            let mode = if sync then sync_completion else false in
            rw
              (
                f,
                readers_pool_fit ok all_threads readers sync sync_completion (ground arith),
                all 0,
                all 1,
                server-lem fn threads mode,
              )
              (readers-lem answers all fn threads mode readers 0
                ∙ ap (λ j. returns (started_net fn threads mode j)) (omega arith)))
    ]

-- With no synchronous completion no call says that it has ended.
never_at_once : (r : WsaResult) → (receive false r ≢ io_pending) × (send false r ≢ io_pending)
unfolding receive send
never_at_once (success bytes) = ((λ e. absurd (omega (arith, e))), (λ e. absurd (omega (arith, e))))
never_at_once (socket_error code) = ground arith

-- Winsock has started.
abbrev pub winsock : Bool → Startup
winsock ifs_handles = record {
  startup_ok = true;
  connect_ok = true;
  accept_ok = true;
  protocol_ok = true;
  ifs_handles = ifs_handles;
}

start_main_lem :
    (fn : ℕ) (ifs_handles : Bool) (ok : ℕ → Bool) (answers : ℕ → Answers)
    → ((i : ℕ) → ok i ≡ true)
    → ((h : ℕ) → answers h ≡ all_ok)
    → start_main (winsock ifs_handles) true ok answers fn ≡ returns (started_net fn 10 false 1)
unfolding start_main start_sockets
start_main_lem fn ifs_handles ok answers all_threads all =
    start_run_lem fn 1 false ifs_handles ok answers all_threads all

-- When every call of the system succeeds: `run` of Awaitable.cpp starts its pool, the server and
-- the readers and comes to its `os_sleep`, with two threads for each reader and eight more, one
-- listener, one accept and one connect for each reader under way, for up to 28 readers; for more
-- the constructor of the pool writes outside the array of its threads. Whatever then happens while
-- it sleeps, each socket is associated with the pool just once, and when `run` has slept the
-- destructor of the pool exits the process with status 0. `main` comes to its sleep with one reader
-- and ten threads and without synchronous completion, whatever the provider offers, and then no
-- read or write says that it has ended at once.
pub awaitable_run_lem :
    {fn : ℕ} {n : Net} (readers : ℕ) (sync ifs_handles : Bool) (ok : ℕ → Bool)
    (answers : ℕ → Answers)
    → ((i : ℕ) → ok i ≡ true)
    → ((h : ℕ) → answers h ≡ all_ok)
    → Later fn (started_net fn (readers * 2 + 8) (if sync then ifs_handles else false) readers) n
    → (start_run true ok answers readers sync fn
          (record { queue = none; sync_completion = ifs_handles })
        ≡ (if ltb 28 readers
            then overruns
            else returns
                (started_net fn (readers * 2 + 8) (if sync then ifs_handles else false) readers)))
      × (AllKnown n × (end_run n ≡ exits 0))
      × (start_main (winsock ifs_handles) true ok answers fn ≡ returns (started_net fn 10 false 1))
      × ((r : WsaResult) → (receive false r ≢ io_pending) × (send false r ≢ io_pending))
awaitable_run_lem {fn = fn} {n = n} readers sync ifs_handles ok answers all_threads all later =
    let threads = readers * 2 + 8 in
    let mode = if sync then ifs_handles else false in
    (
      start_run_lem fn readers sync ifs_handles ok answers all_threads all,
      (
        awaitable-AllKnown (Later-Reach (started-Reach fn threads mode readers) later),
        end_run_exits n
            (Later-HasPool (record (made threads) { associated = joined fn readers }, refl) later),
      ),
      start_main_lem fn ifs_handles ok answers all_threads all,
      never_at_once,
    )
