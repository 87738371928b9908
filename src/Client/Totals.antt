-- ===== src/Client/Totals.antt =====
-- The totals that the client of myclient.cpp prints.
use await.Base.{
  ℕ, zero, suc, ◌+◌, ◌*◌, ◌%◌, ◌^◌, ◌≤◌, ◌<◌, ◌≡◌, refl, ap, subst, ◌∙◌, List, [], ◌∷◌, map, length,
  total, total-append, Every, Every-mono, Every-replace, arith,
}
use await.Client.{World, Step, stops, act, stop}
use await.Client.Fleet.{
  Stats, Client, ClientStep, session_steps, times_out, new_client, new_sessions, handle_timeout,
  destroy_client, destroy_sessions, destroy_session, add,
}
use await.Client.Valid.{volume}
use await.Client.Runs.{length-pattern, Reach, begins, goes}
use await.Client.Echo.{Echoes, session-Echoes}

pub data ClientReach (block_size : ℕ) (junk : ℕ → List ℕ) (session_count : ℕ)
    : Client → Type 0 where
  opens : ClientReach block_size junk session_count (new_client block_size junk session_count)
  proceeds :
      {c c' : Client}
      → ClientReach block_size junk session_count c
      → ClientStep c c'
      → ClientReach block_size junk session_count c'

-- a session that may be reached, whatever its array held at first
record Ran (size : ℕ) (w : World) : Type 0 where
  junk : List ℕ
  whole : length junk ≡ size
  run : Reach size junk w

module _ (size : ℕ) where
  Step-Ran : {w w' : World} → Step w w' → Ran size w → Ran size w'
  Step-Ran s r = record { junk = r.junk; whole = r.whole; run = goes r.run s }

  Every-stop : (ws : List World) → Every (Ran size) ws → Every (Ran size) (map (act stop) ws)
  Every-stop [] h = tt
  Every-stop (w ∷ ws) h = (Step-Ran stops h.0, Every-stop ws h.1)

  new-Ran :
      (junk : ℕ → List ℕ) (i n : ℕ)
      → ((j : ℕ) → length (junk j) ≡ size)
      → Every (Ran size) (new_sessions size junk i n)
  unfolding new_sessions
  new-Ran junk i zero whole = tt
  new-Ran junk i (suc n) whole =
      (record { junk = junk i; whole = whole i; run = begins }, new-Ran junk (i + 1) n whole)

  ClientReach-Ran :
      {junk : ℕ → List ℕ} {n : ℕ} {c : Client}
      → ((j : ℕ) → length (junk j) ≡ size)
      → ClientReach size junk n c
      → Every (Ran size) c.sessions
  unfolding new_client handle_timeout
  ClientReach-Ran {junk = junk} {n = n} whole opens = new-Ran junk 0 n whole
  ClientReach-Ran whole (proceeds r (session_steps before after w w' e s)) =
      Every-replace (Ran size) before w w' after
        (subst (Every (Ran size)) e (ClientReach-Ran whole r)) (Step-Ran s)
  ClientReach-Ran whole (proceeds {c = c} r times_out) =
      Every-stop c.sessions (ClientReach-Ran whole r)

-- the bytes that have gone out and come in over all the connections
abbrev pub all_sent : List World → ℕ
all_sent = total (λ w. volume w.sent)

abbrev pub all_received : List World → ℕ
all_received = total (λ w. volume w.received)

destroy_sessions-written :
    (ws : List World) (stats : Stats) (size a : ℕ)
    → Every (Echoes size) ws
    → stats.total_bytes_written ≡ a % 2 ^ 64
    → (destroy_sessions ws stats).total_bytes_written ≡ (a + all_sent ws) % 2 ^ 64
unfolding destroy_sessions destroy_session add
destroy_sessions-written [] stats size a echoes e = omega (arith, e)
destroy_sessions-written (w ∷ ws) stats size a echoes e =
    destroy_sessions-written ws (destroy_session w.session stats) size (a + volume w.sent) echoes.1
      (omega (arith, e, echoes.0.written))
    ∙ omega arith

destroy_sessions-read :
    (ws : List World) (stats : Stats) (size a : ℕ)
    → Every (Echoes size) ws
    → stats.total_bytes_read ≡ a % 2 ^ 64
    → (destroy_sessions ws stats).total_bytes_read ≡ (a + all_received ws) % 2 ^ 64
unfolding destroy_sessions destroy_session add
destroy_sessions-read [] stats size a echoes e = omega (arith, e)
destroy_sessions-read (w ∷ ws) stats size a echoes e =
    destroy_sessions-read ws (destroy_session w.session stats) size (a + volume w.received) echoes.1
      (omega (arith, e, echoes.0.read))
    ∙ omega arith

-- A session never sends more than its first block and what it has read.
sent_le : (size : ℕ) (w : World) → Echoes size w → volume w.sent ≤ size + volume w.received
sent_le size w h =
    omega (arith, length-pattern size 0, ap volume h.stream, total-append length w.sent h.owed)

all_sent_le :
    (size : ℕ) (ws : List World)
    → Every (Echoes size) ws
    → all_sent ws ≤ length ws * size + all_received ws
all_sent_le size [] echoes = omega arith
all_sent_le size (w ∷ ws) echoes =
    grind (arith, sent_le size w echoes.0, all_sent_le size ws echoes.1)

-- The totals that `~client` prints count what has gone over all the connections.
pub record Accounts (block_size : ℕ) (c : Client) : Type 0 where
  pub echoes : Every (Echoes block_size) c.sessions
  pub written : (destroy_client c).total_bytes_written ≡ all_sent c.sessions % 2 ^ 64
  pub read : (destroy_client c).total_bytes_read ≡ all_received c.sessions % 2 ^ 64
  pub no_more : all_sent c.sessions ≤ length c.sessions * block_size + all_received c.sessions

-- a step of the client leaves the totals alone
zero_stats :
    {block_size session_count : ℕ} {junk : ℕ → List ℕ} {c : Client}
    → ClientReach block_size junk session_count c
    → (c.stats.total_bytes_written ≡ 0) × (c.stats.total_bytes_read ≡ 0)
unfolding new_client handle_timeout
zero_stats opens = (refl, refl)
zero_stats (proceeds r (session_steps before after w w' e s)) = zero_stats r
zero_stats (proceeds r times_out) = zero_stats r

-- In every run of a client of myclient.cpp with a block size above 0, whatever the read arrays of
-- that size hold at first: the blocks that a session has sent, followed by at most two more, are
-- its first block followed by those it has read; the totals that the destructor computes are the
-- numbers of bytes sent and read over all the connections, modulo 2^64; and no more is sent than
-- one block for each session and what was read.
pub client-Accounts :
    {block_size session_count : ℕ} {junk : ℕ → List ℕ} {c : Client}
    → 0 < block_size
    → ((i : ℕ) → length (junk i) ≡ block_size)
    → ClientReach block_size junk session_count c
    → Accounts block_size c
unfolding destroy_client
client-Accounts {block_size = block_size} {c = c} some_size whole r =
    let echoes =
      Every-mono _ _ (λ w ran. session-Echoes some_size ran.whole ran.run) c.sessions
        (ClientReach-Ran block_size whole r) in
    let zeros = zero_stats r in
    record {
      echoes = echoes;
      written =
          destroy_sessions-written c.sessions c.stats block_size 0 echoes (omega (arith, zeros.0))
          ∙ omega arith;
      read =
          destroy_sessions-read c.sessions c.stats block_size 0 echoes (omega (arith, zeros.1))
          ∙ omega arith;
      no_more = all_sent_le block_size c.sessions echoes;
    }
