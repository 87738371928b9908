-- ===== src/Awaitable/Accept.antt =====
-- `Listener::Accept`, `Connect`, `repost` and `Server` of 2015_CppCon/SuperLean/Awaitable.cpp. What
-- `AcceptEx` and `ConnectEx` return is an input; `panic_if` ends the program, which is a `fault`.
use await.Base.{
  ℕ, ◌+◌, ◌-◌, Bool, List, [], ◌∷◌, ◌++◌, ◌==◌, if◌then◌else◌, Outcome, done, fault, ◌>>=◌,
}
use await.Pal.{WsaResult}
use await.Pal.Calls.{accept, connect}
use await.Awaitable.{Client, serve_client, write_suspend}

-- `AwaiterBase`: what `io_complete_callback` stores before it resumes
pub record AwaiterBase : Type 0 where
  pub err : ℕ
  pub bytes : ℕ

abbrev pub io_complete_callback : ℕ → ℕ → AwaiterBase → AwaiterBase
io_complete_callback error bytes a = record { err = error; bytes = bytes }

-- `await_resume` of `Connect`; the connection is the socket's handle
unfoldable pub connect_resume : AwaiterBase → ℕ → Outcome ℕ
connect_resume a conn = if a.err == 0 then done conn else fault

-- `await_suspend` of `Connect`, which ignores the status; the coroutine stays suspended
unfoldable pub connect_suspend : Bool → ℕ → Outcome ℕ
connect_suspend ok code = connect ok code

-- `await_resume` of `Accept` does not look at `err`.
unfoldable pub accept_resume : AwaiterBase → ℕ → ℕ
accept_resume a sock = sock

unfoldable pub accept_suspend : Bool → ℕ → Outcome ℕ
accept_suspend ok code = accept ok code

-- A client's coroutine with the handle of its connection, and whether that was connected.
pub record Served : Type 0 where
  pub handle : ℕ
  pub connected : Bool
  pub client : Client

-- `Server`: how many accepts are under way, the sockets that its accepts have made, and the clients.
pub record Server : Type 0 where
  pub accepting : ℕ
  pub opened : ℕ
  pub clients : List Served

-- `co_await s.Accept()`: the awaiter makes a socket and starts the accept
abbrev pub accept_next : Bool → ℕ → Server → Outcome Server
accept_next ok code s = accept_suspend ok code >>= λ status.
    done (record s { accepting = s.accepting + 1; opened = s.opened + 1 })

unfoldable pub server : Bool → ℕ → Outcome Server
unfolding accept_suspend
server ok code = accept_next ok code (record { accepting = 0; opened = 0; clients = [] })

-- An accept completes with `error`: the coroutine is resumed, `ServeClient` runs to its first suspension
-- with the `results` of its writes, and the loop awaits the next accept.
unfoldable pub resume_server : ℕ → Bool → List WsaResult → Bool → ℕ → Server → Outcome Server
unfolding accept_resume accept_suspend write_suspend
resume_server error sync results ok code s =
    let a = io_complete_callback error 0 (record { err = 0; bytes = 0 }) in
    let sock = accept_resume a (s.opened - 1) in
    accept_next ok code (record {
      accepting = s.accepting - 1;
      opened = s.opened;
      clients =
          s.clients
          ++ (record { handle = sock; connected = error == 0; client = serve_client sync results }
              ∷ []);
    })
