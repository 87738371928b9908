-- ===== src/Client/Fleet.antt =====
-- `stats` and `client` of 2017_CppCon/live/myclient.cpp: many sessions, a timer that stops them, and the
-- totals that the destructor prints.
use await.Base.{ℕ, zero, suc, ◌+◌, ◌≡◌, List, [], ◌∷◌, ◌++◌, map}
use await.Client.{Session, World, add64, started, act, stop, Step}

pub record Stats : Type 0 where
  pub total_bytes_written : ℕ
  pub total_bytes_read : ℕ

unfoldable pub add : ℕ → ℕ → Stats → Stats
add bytes_written bytes_read stats = record {
  total_bytes_written = add64 stats.total_bytes_written bytes_written;
  total_bytes_read = add64 stats.total_bytes_read bytes_read;
}

-- `~session`
unfoldable pub destroy_session : Session → Stats → Stats
unfolding add
destroy_session s stats = add s.bytes_written s.bytes_read stats

pub record Client : Type 0 where
  pub sessions : List World
  pub stats : Stats

-- `session_count` sessions; `junk i` is what the read array of the `i`th holds at first
unfoldable pub new_sessions : ℕ → (ℕ → List ℕ) → ℕ → ℕ → List World
unfolding started
new_sessions block_size junk i zero = []
new_sessions block_size junk i (suc session_count) =
    started block_size (junk i) ∷ new_sessions block_size junk (i + 1) session_count

unfoldable pub new_client : ℕ → (ℕ → List ℕ) → ℕ → Client
unfolding new_sessions
new_client block_size junk session_count = record {
  sessions = new_sessions block_size junk 0 session_count;
  stats = record { total_bytes_written = 0; total_bytes_read = 0 };
}

unfoldable pub handle_timeout : Client → Client
handle_timeout c = record c { sessions = map (act stop) c.sessions }

-- `~client`, and what it prints
unfoldable pub destroy_sessions : List World → Stats → Stats
unfolding destroy_session
destroy_sessions [] stats = stats
destroy_sessions (w ∷ ws) stats = destroy_sessions ws (destroy_session w.session stats)

unfoldable pub destroy_client : Client → Stats
unfolding destroy_sessions
destroy_client c = destroy_sessions c.sessions c.stats

-- The threads run the handlers of the sessions in any order, and the timer's.
pub data ClientStep : Client → Client → Type 0 where
  session_steps :
      {c : Client} (before after : List World) (w w' : World)
      → c.sessions ≡ before ++ (w ∷ after)
      → Step w w'
      → ClientStep c (record c { sessions = before ++ (w' ∷ after) })
  times_out : {c : Client} → ClientStep c (handle_timeout c)
