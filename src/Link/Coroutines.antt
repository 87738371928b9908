-- ===== src/Link/Coroutines.antt =====
-- A session of 2017_CppCon/live/myclient.cpp, joined to a coroutine session of hard1.cpp, easy.cpp or hard2.cpp.
use await.Base.{
  ℕ, ◌%◌, ◌<◌, ◌≡◌, refl, subst, sym, ap, ◌∙◌, Bool, false, List, [], ◌∷◌, ◌++◌, inl, inr, length,
  map, take, get_elem?, some, flat, IsPrefix, IsPrefix-trans, flat-IsPrefix, map-append,
}
use mathlib.Core.List.{append-nil}
use await.Client
use await.Hard
use await.Hard.Same.{run_coroutine}
use await.Hard.Echo.{EchoesAt, EchoesSoFar, hard1-Echoes}
use await.Easy.Futures.{BoostFutures}
use await.Easy.Same.{run_futures, run_futures-eq}
use await.Hard2
use await.Hard2.Same.{run_session, run_session-eq}
use await.Link.{ClientGave, Connected}
use await.Server
use await.Link.Round.{relay_lem, server_gave}

-- what a session of one of the three programs is after some completions, and after some more of them
pub data SessionRuns (b : BoostFutures) (size : ℕ) : Hard.Session → Hard.Session → Type 0 where
  of_hard1 :
      (failed : Bool) (after before : List Hard.Completion)
      → SessionRuns b size
          (run_coroutine failed size before)
          (run_coroutine failed size (after ++ before))
  of_easy :
      (failed : Bool) (after before : List (Bool × Hard.Completion))
      → SessionRuns b size
          (run_futures b failed size before)
          (run_futures b failed size (after ++ before))
  of_hard2 :
      (a : Hard2.Awaiter) (after before : List Hard.Completion)
      → SessionRuns b size
          (run_session a false size before)
          (run_session a false size (after ++ before))

-- the block of the write that the session awaits
abbrev pub writes_at : Hard.Point → List ℕ → List (List ℕ)
writes_at Hard.at_read buf = []
writes_at (Hard.at_write n) buf = take n buf ∷ []
writes_at Hard.finished buf = []

abbrev pub session_offers : Hard.Session → List ℕ
session_offers s = flat (s.sent ++ writes_at s.point s.buf)

-- What a TCP connection promises, as in the case of the callbacks' session.
pub record Joined (b : BoostFutures) (size : ℕ) (junk : List ℕ) (server_size : ℕ) (w : Client.World)
    (s : Hard.Session) : Type 0 where
  pub moment : Hard.Session
  pub runs : SessionRuns b server_size moment s
  pub to_server : ClientGave size junk w (flat s.received)
  pub to_client : IsPrefix (flat w.received) (session_offers moment)

offers_bound :
    (p : Hard.Point) (s : Hard.Session)
    → EchoesAt p s
    → IsPrefix (flat (s.sent ++ writes_at p s.buf)) (flat s.received)
offers_bound Hard.at_read s h =
    flat-IsPrefix (s.sent ++ []) s.received []
      (h ∙ sym (append-nil s.sent) ∙ sym (append-nil (s.sent ++ [])))
offers_bound (Hard.at_write n) s h =
    flat-IsPrefix (s.sent ++ (take n s.buf ∷ [])) s.received []
      (h ∙ sym (append-nil (s.sent ++ (take n s.buf ∷ []))))
offers_bound Hard.finished s (inl h) =
    flat-IsPrefix (s.sent ++ []) s.received []
      (h ∙ sym (append-nil s.sent) ∙ sym (append-nil (s.sent ++ [])))
offers_bound Hard.finished s (inr (block, h)) =
    flat-IsPrefix (s.sent ++ []) s.received (block ∷ [])
      (h ∙ ap (λ l. l ++ (block ∷ [])) (sym (append-nil s.sent)))

complete_grows :
    (p : Hard.Point) (c : Hard.Completion) (s : Hard.Session)
    → IsPrefix s.received (Hard.complete_at p c s).received
unfolding Hard.resume_read Hard.resume_write
complete_grows Hard.at_read (Hard.read_done bytes) s = (take s.block_size bytes ∷ [], refl)
complete_grows Hard.at_read Hard.write_done s = ([], sym (append-nil s.received))
complete_grows Hard.at_read Hard.fails s = ([], sym (append-nil s.received))
complete_grows (Hard.at_write n) (Hard.read_done bytes) s = ([], sym (append-nil s.received))
complete_grows (Hard.at_write n) Hard.write_done s = ([], sym (append-nil s.received))
complete_grows (Hard.at_write n) Hard.fails s = ([], sym (append-nil s.received))
complete_grows Hard.finished c s = ([], sym (append-nil s.received))

-- a session that echoes, at two moments
abbrev EchoesThen : ℕ → Hard.Session → Hard.Session → Type 0
EchoesThen size m s = EchoesSoFar size m × IsPrefix m.received s.received

run_grows :
    (failed : Bool) (size : ℕ) (after before : List Hard.Completion)
    → EchoesThen size
        (run_coroutine failed size before)
        (run_coroutine failed size (after ++ before))
unfolding run_coroutine Hard.complete
run_grows failed size [] before = (
  hard1-Echoes failed size before,
  ([], sym (append-nil (run_coroutine failed size before).received)),
)
run_grows failed size (c ∷ after) before =
    let s = run_coroutine failed size (after ++ before) in
    let (echoes, grows) = run_grows failed size after before in
    (
      echoes,
      IsPrefix-trans (run_coroutine failed size before).received s.received
          (Hard.complete_at s.point c s).received grows (complete_grows s.point c s),
    )

runs_grow :
    {b : BoostFutures} {size : ℕ} {m s : Hard.Session}
    → SessionRuns b size m s
    → EchoesThen size m s
runs_grow {size = size} (of_hard1 failed after before) = run_grows failed size after before
runs_grow {b = b} {size = size} (of_easy failed after before) =
    subst (λ m. EchoesThen size m (run_futures b failed size (after ++ before)))
      (sym (run_futures-eq b failed size before))
      (subst (EchoesThen size (run_coroutine failed size (map (λ c. c.1) before)))
        (ap (run_coroutine failed size) (sym (map-append (λ c. c.1) after before))
          ∙ sym (run_futures-eq b failed size (after ++ before)))
        (run_grows failed size (map (λ c. c.1) after) (map (λ c. c.1) before)))
runs_grow {size = size} (of_hard2 a after before) =
    subst (λ m. EchoesThen size m (run_session a false size (after ++ before)))
      (sym (run_session-eq a size before))
      (subst (EchoesThen size (run_coroutine false size before))
        (sym (run_session-eq a size (after ++ before))) (run_grows false size after before))

-- What the session has given to the client is the start of what it has got by now.
session_gave :
    {b : BoostFutures} {size : ℕ} {m s : Hard.Session} (bytes : List ℕ)
    → SessionRuns b size m s
    → IsPrefix bytes (session_offers m)
    → IsPrefix bytes (flat s.received)
session_gave {m = m} {s = s} bytes runs given =
    let (echoes, (rest, e)) = runs_grow runs in
    IsPrefix-trans bytes (session_offers m) (flat s.received) given (
      IsPrefix-trans (session_offers m) (flat m.received) (flat s.received)
        (offers_bound m.point m echoes.echoes) (flat-IsPrefix m.received s.received rest e))

-- the four ways in which a session may be served
pub data ServedBy (b : BoostFutures) (size : ℕ) (junk : List ℕ) (server_size : ℕ) (w : Client.World)
    : Type 0 where
  by_callbacks :
      {p : Server.Peer} → Connected size junk server_size w p → ServedBy b size junk server_size w
  by_coroutine :
      {s : Hard.Session} → Joined b size junk server_size w s → ServedBy b size junk server_size w

-- For a session of myclient.cpp with a block size above 0 that a TCP connection joins to a session
-- of any block size, of myserver.cpp or of hard1.cpp, easy.cpp or hard2.cpp, each after any
-- completions and failures, where a write that fails may have sent part of its block, and with
-- futures that behave as Boost's documentation says: what the client has read is the start of what
-- it has given to the connection at some moment, and the byte that it has read at any place `i` is
-- `i % size % 128`, where `size` is its block size.
pub served_round_lem :
    {b : BoostFutures} {size server_size : ℕ} {junk : List ℕ} {w : Client.World}
    → 0 < size
    → length junk ≡ size
    → ServedBy b size junk server_size w
    → ClientGave size junk w (flat w.received)
      × ((i : ℕ)
          → i < length (flat w.received)
          → get_elem? (flat w.received) i ≡ some (i % size % 128))
served_round_lem {w = w} some_size whole (by_callbacks {p = p} c) =
    relay_lem (flat p.received) some_size whole (server_gave (flat w.received) c.to_client)
      c.to_server
served_round_lem {w = w} some_size whole (by_coroutine {s = s} c) =
    relay_lem (flat s.received) some_size whole (session_gave (flat w.received) c.runs c.to_client)
      c.to_server
