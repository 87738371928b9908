-- ===== src/Hard/Same.antt =====
-- The coroutine session of hard1.cpp and the session of myserver.cpp, on the same completions.
use await.Base.{
  ℕ, ◌+◌, ◌≡◌, refl, ap, ap₂, sym, subst, ◌∙◌, Bool, true, false, List, [], ◌∷◌, ◌++◌, length, take,
  overwrite, if◌then◌else◌,
}
use await.Server
use await.Hard

-- The callbacks' completion of the one operation that is under way, with the deletion that follows.
abbrev pub serve_op : Server.Op → Hard.Completion → Server.Peer → Server.Peer
serve_op (Server.reading size) (Hard.read_done bytes) p =
    Server.act (Server.handle_read false (length (take size bytes))) (record p {
      session = Server.store (take size bytes) p.session;
      pending = [];
      received = p.received ++ (take size bytes ∷ []);
    })
serve_op (Server.reading size) Hard.write_done p = p
serve_op (Server.reading size) Hard.fails p =
    let p' = Server.act (Server.handle_read true 0) (record p { pending = [] }) in
    Server.destroy (record p' { pending = [] })
serve_op (Server.writing size) (Hard.read_done bytes) p = p
serve_op (Server.writing size) Hard.write_done p =
    Server.act (Server.handle_write false)
      (record p { pending = []; sent = p.sent ++ (take size p.session.buf ∷ []) })
serve_op (Server.writing size) Hard.fails p =
    let p' = Server.act (Server.handle_write true) (record p { pending = [] }) in
    Server.destroy (record p' { pending = [] })
serve_op Server.destroying c p = Server.destroy (record p { pending = [] })

abbrev pub serve_pending : List Server.Op → Hard.Completion → Server.Peer → Server.Peer
serve_pending [] c p = p
serve_pending (op ∷ ops) c p = serve_op op c p

-- a session of each kind, after the same completions
unfoldable pub run_callbacks : Bool → ℕ → List Hard.Completion → Server.Peer
run_callbacks failed size [] =
    let p = Server.started failed size in
    if failed then Server.destroy (record p { pending = [] }) else p
run_callbacks failed size (c ∷ cs) =
    let p = run_callbacks failed size cs in serve_pending p.pending c p

unfoldable pub run_coroutine : Bool → ℕ → List Hard.Completion → Hard.Session
run_coroutine failed size [] = Hard.session failed size
run_coroutine failed size (c ∷ cs) = Hard.complete c (run_coroutine failed size cs)

-- what the session waits for at a point, and how often it is gone
abbrev pub waits_for : Hard.Point → ℕ → List Server.Op
waits_for Hard.at_read size = Server.reading size ∷ []
waits_for (Hard.at_write n) size = Server.writing n ∷ []
waits_for Hard.finished size = []

abbrev pub gone : Hard.Point → ℕ
gone Hard.at_read = 0
gone (Hard.at_write n) = 0
gone Hard.finished = 1

pub record Same (p : Server.Peer) (s : Hard.Session) : Type 0 where
  pub size : p.session.block_size ≡ s.block_size
  pub buf : p.session.buf ≡ s.buf
  pub pending : p.pending ≡ waits_for s.point s.block_size
  pub deleted : p.deleted ≡ gone s.point
  pub received : p.received ≡ s.received
  pub sent : p.sent ≡ s.sent

start-Same :
    (failed : Bool) (size : ℕ) → Same (run_callbacks failed size []) (run_coroutine failed size [])
unfolding run_callbacks run_coroutine Hard.session Server.started Server.start Server.new_session
    Server.destroy
start-Same true size = record {
  size = refl;
  buf = refl;
  pending = refl;
  deleted = refl;
  received = refl;
  sent = refl;
}
start-Same false size = record {
  size = refl;
  buf = refl;
  pending = refl;
  deleted = refl;
  received = refl;
  sent = refl;
}

-- one completion, when the callbacks' session waits for what the coroutine waits for
step-Same :
    (pt : Hard.Point) (c : Hard.Completion) (p : Server.Peer) (s : Hard.Session)
    → pt ≡ s.point
    → Same p s
    → Same (serve_pending (waits_for pt s.block_size) c p) (Hard.complete_at pt c s)
unfolding Hard.resume_read Hard.resume_write Server.handle_read Server.handle_write Server.destroy
step-Same Hard.at_read (Hard.read_done bytes) p s e h = record {
  size = h.size;
  buf = ap (overwrite (take s.block_size bytes)) h.buf;
  pending = refl;
  deleted = h.deleted ∙ ap gone (sym e);
  received = ap (λ l. l ++ (take s.block_size bytes ∷ [])) h.received;
  sent = h.sent;
}
step-Same Hard.at_read Hard.write_done p s e h = h
step-Same Hard.at_read Hard.fails p s e h = record {
  size = h.size;
  buf = h.buf;
  pending = refl;
  deleted = ap (λ n. n + 1) (h.deleted ∙ ap gone (sym e));
  received = h.received;
  sent = h.sent;
}
step-Same (Hard.at_write n) (Hard.read_done bytes) p s e h = h
step-Same (Hard.at_write n) Hard.write_done p s e h = record {
  size = h.size;
  buf = h.buf;
  pending = ap (λ k. Server.reading k ∷ []) h.size;
  deleted = h.deleted ∙ ap gone (sym e);
  received = h.received;
  sent = ap₂ (λ l b. l ++ (take n b ∷ [])) h.sent h.buf;
}
step-Same (Hard.at_write n) Hard.fails p s e h = record {
  size = h.size;
  buf = h.buf;
  pending = refl;
  deleted = ap (λ n. n + 1) (h.deleted ∙ ap gone (sym e));
  received = h.received;
  sent = h.sent;
}
step-Same Hard.finished c p s e h = h

pub hard1-Same :
    (failed : Bool) (size : ℕ) (cs : List Hard.Completion)
    → Same (run_callbacks failed size cs) (run_coroutine failed size cs)
unfolding run_callbacks run_coroutine Hard.complete
hard1-Same failed size [] = start-Same failed size
hard1-Same failed size (c ∷ cs) =
    let p = run_callbacks failed size cs in
    let s = run_coroutine failed size cs in
    let h = hard1-Same failed size cs in
    subst (λ ops. Same (serve_pending ops c p) (Hard.complete_at s.point c s)) (sym h.pending)
      (step-Same s.point c p s refl h)
