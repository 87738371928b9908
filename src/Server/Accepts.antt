-- ===== src/Server/Accepts.antt =====
-- The server of myserver.cpp with all its sessions.
use await.Base.{
  ℕ, ◌≡◌, refl, subst, true, false, [], ◌∷◌, Every, Every-append, Every-replace, arith,
}
use await.Server.{
  Server, ServerStep, accepts, session_steps, new_server, start_accept, handle_accept, started,
}
use await.Server.Serves.{Serves, Step-Serves, started-Serves}

pub data Reach (block_size : ℕ) : Server → Type 0 where
  opens : Reach block_size (new_server block_size)
  proceeds : {s s' : Server} → Reach block_size s → ServerStep s s' → Reach block_size s'

pub record Attends (block_size : ℕ) (s : Server) : Type 0 where
  pub size : s.block_size ≡ block_size
  pub one_accept : s.accepting ≡ 1
  pub serving : Every (Serves block_size) s.sessions

step-Attends : {size : ℕ} {s s' : Server} → ServerStep s s' → Attends size s → Attends size s'
unfolding handle_accept start_accept
step-Attends (accepts n true opt e) a = record {
  size = a.size;
  one_accept = omega (arith, e, a.one_accept);
  serving = a.serving;
}
step-Attends {size = size} {s = s} (accepts n false opt e) a = record {
  size = a.size;
  one_accept = omega (arith, e, a.one_accept);
  serving = Every-append (Serves size) s.sessions (started opt s.block_size ∷ []) a.serving (
    subst (λ k. Serves k (started opt s.block_size)) a.size (started-Serves opt s.block_size),
    tt,
  );
}
step-Attends {size = size} (session_steps before after p p' e s) a = record {
  size = a.size;
  one_accept = a.one_accept;
  serving =
      Every-replace (Serves size) before p p' after (subst (Every (Serves size)) e a.serving)
        (Step-Serves s);
}

-- In every run of the server of myserver.cpp just one accept is under way, and for each session:
-- it has one thing under way until it is deleted, and then nothing, and it is deleted once; a
-- read fills the buffer and a write stays inside it; the blocks sent, followed by at most one
-- more, are the blocks read.
pub server-Attends : {block_size : ℕ} {s : Server} → Reach block_size s → Attends block_size s
unfolding new_server start_accept
server-Attends opens = record { size = refl; one_accept = refl; serving = tt }
server-Attends (proceeds r s) = step-Attends s (server-Attends r)
