-- ===== src/Hard2/Accepts.antt =====
-- The servers of myserver.cpp, hard1.cpp, easy.cpp and hard2.cpp, on the same accepts.
use await.Base.{
  ℕ, ◌-◌, ◌≡◌, refl, ap, sym, ◌∙◌, Bool, true, false, ◌||◌, List, [], ◌∷◌, ◌++◌, map, map-append,
  if◌then◌else◌,
}
use await.Server as Callbacks
use await.Hard
use await.Easy
use await.Hard2
use await.Hard2.Server

-- The accepts that have completed, the last one first: whether each failed, and whether the `set_option` of
-- its session fails.
abbrev pub Accepts : Type 0
Accepts = List (Bool × Bool)

abbrev pub any_failed : Accepts → Bool
any_failed [] = false
any_failed (e ∷ es) = e.0 || any_failed es

-- the sockets that were accepted, the first one first
abbrev pub accepted : Accepts → List Bool
accepted [] = []
accepted (e ∷ es) = let rest = accepted es in if e.0 then rest else rest ++ (e.1 ∷ [])

abbrev pub before_failure : Accepts → Accepts
before_failure [] = []
before_failure (e ∷ es) =
    let rest = before_failure es in if any_failed (e ∷ es) then rest else e ∷ es

-- A completion takes the accept off those under way, and then the handler runs.
unfoldable pub run_callbacks : ℕ → Accepts → Callbacks.Server
run_callbacks size [] = Callbacks.new_server size
run_callbacks size (e ∷ es) =
    let s = run_callbacks size es in
    Callbacks.handle_accept e.0 e.1 (record s { accepting = s.accepting - 1 })

unfoldable pub run_hard1 : ℕ → Accepts → Hard.Server
run_hard1 size [] = Hard.new_server size
run_hard1 size (e ∷ es) =
    let s = run_hard1 size es in
    Hard.handle_accept e.0 e.1 (record s { accepting = s.accepting - 1 })

unfoldable pub run_easy : ℕ → Accepts → Easy.Server
run_easy size [] = Easy.new_server size
run_easy size (e ∷ es) =
    let s = run_easy size es in
    Easy.handle_accept e.0 e.1 (record s { accepting = s.accepting - 1 })

unfoldable pub run_hard2 : ℕ → Accepts → Server.Server
run_hard2 size [] = Server.server size
run_hard2 size (e ∷ es) = Server.resume e.0 e.1 (run_hard2 size es)

callbacks_lem :
    (size : ℕ) (es : Accepts)
    → run_callbacks size es ≡ record {
      block_size = size;
      accepting = 1;
      sessions = map (λ o. Callbacks.started o size) (accepted es);
    }
unfolding run_callbacks Callbacks.new_server Callbacks.start_accept Callbacks.handle_accept
callbacks_lem size [] = refl
callbacks_lem size ((true, o) ∷ es) =
    ap (λ s. Callbacks.handle_accept true o (record s { accepting = s.accepting - 1 }))
      (callbacks_lem size es)
callbacks_lem size ((false, o) ∷ es) =
    ap (λ s. Callbacks.handle_accept false o (record s { accepting = s.accepting - 1 }))
      (callbacks_lem size es)
    ∙ ap (λ l. record { block_size = size; accepting = 1; sessions = l })
        (sym (map-append (λ o. Callbacks.started o size) (accepted es) (o ∷ [])))

hard1_lem :
    (size : ℕ) (es : Accepts)
    → run_hard1 size es ≡ record {
      block_size = size;
      accepting = 1;
      sessions = map (λ o. Hard.session o size) (accepted es);
    }
unfolding run_hard1 Hard.new_server Hard.start_accept Hard.handle_accept
hard1_lem size [] = refl
hard1_lem size ((true, o) ∷ es) =
    ap (λ s. Hard.handle_accept true o (record s { accepting = s.accepting - 1 }))
      (hard1_lem size es)
hard1_lem size ((false, o) ∷ es) =
    ap (λ s. Hard.handle_accept false o (record s { accepting = s.accepting - 1 }))
      (hard1_lem size es)
    ∙ ap (λ l. record { block_size = size; accepting = 1; sessions = l })
        (sym (map-append (λ o. Hard.session o size) (accepted es) (o ∷ [])))

easy_lem :
    (size : ℕ) (es : Accepts)
    → run_easy size es ≡ record {
      block_size = size;
      accepting = 1;
      sessions = map (λ o. Easy.session o size) (accepted es);
    }
unfolding run_easy Easy.new_server Easy.start_accept Easy.handle_accept
easy_lem size [] = refl
easy_lem size ((true, o) ∷ es) =
    ap (λ s. Easy.handle_accept true o (record s { accepting = s.accepting - 1 }))
      (easy_lem size es)
easy_lem size ((false, o) ∷ es) =
    ap (λ s. Easy.handle_accept false o (record s { accepting = s.accepting - 1 }))
      (easy_lem size es)
    ∙ ap (λ l. record { block_size = size; accepting = 1; sessions = l })
        (sym (map-append (λ o. Easy.session o size) (accepted es) (o ∷ [])))

before_failure_all : (es : Accepts) → any_failed es ≡ false → before_failure es ≡ es
before_failure_all [] h = refl
before_failure_all ((e, o) ∷ es) h = rw h

-- the coroutine after the accepts, by whether one has failed
abbrev pub served : Bool → ℕ → Accepts → Server.Server
served failed size es = record {
  block_size = size;
  point = if failed then Server.ended else Server.at_accept;
  sessions = map (λ o. Hard2.session o size) (accepted es);
}

resume_lem :
    (failed : Bool) (size : ℕ) (e : Bool × Bool) (es : Accepts)
    → any_failed es ≡ failed
    → Server.resume e.0 e.1 (served failed size (before_failure es))
      ≡ served (e.0 || failed) size (before_failure (e ∷ es))
unfolding Server.resume
resume_lem true size (true, o) es h = refl
resume_lem true size (false, o) es h = rw h
resume_lem false size (true, o) es h = refl
resume_lem false size (false, o) es h =
    rw (h, before_failure_all es h)
      (ap (λ l. record { block_size = size; point = Server.at_accept; sessions = l })
        (sym (map-append (λ o. Hard2.session o size) (accepted es) (o ∷ []))))

pub hard2_lem :
    (size : ℕ) (es : Accepts) → run_hard2 size es ≡ served (any_failed es) size (before_failure es)
unfolding run_hard2 Server.server
hard2_lem size [] = refl
hard2_lem size (e ∷ es) =
    ap (Server.resume e.0 e.1) (hard2_lem size es) ∙ resume_lem (any_failed es) size e es refl

-- the servers after the same accepts
pub record Served (size : ℕ) (es : Accepts) : Type 0 where
  pub callbacks_accepting : (run_callbacks size es).accepting ≡ 1
  pub callbacks :
      (run_callbacks size es).sessions ≡ map (λ o. Callbacks.started o size) (accepted es)
  pub hard1_accepting : (run_hard1 size es).accepting ≡ 1
  pub hard1 : (run_hard1 size es).sessions ≡ map (λ o. Hard.session o size) (accepted es)
  pub easy_accepting : (run_easy size es).accepting ≡ 1
  pub easy : (run_easy size es).sessions ≡ map (λ o. Easy.session o size) (accepted es)
  pub hard2_point :
      (run_hard2 size es).point ≡ (if any_failed es then Server.ended else Server.at_accept)
  pub hard2 :
      (run_hard2 size es).sessions ≡ map (λ o. Hard2.session o size) (accepted (before_failure es))

-- After any accepts, each of which may fail: the servers of myserver.cpp, hard1.cpp and easy.cpp have one
-- accept under way and have started a session for each connection accepted, in order; the server of
-- hard2.cpp has ended if and only if an accept has failed, and has started the sessions of the connections
-- accepted before the first failure and no others.
pub servers-Served : (size : ℕ) (es : Accepts) → Served size es
servers-Served size es = record {
  callbacks_accepting = ap (λ s. s.accepting) (callbacks_lem size es);
  callbacks = ap (λ s. s.sessions) (callbacks_lem size es);
  hard1_accepting = ap (λ s. s.accepting) (hard1_lem size es);
  hard1 = ap (λ s. s.sessions) (hard1_lem size es);
  easy_accepting = ap (λ s. s.accepting) (easy_lem size es);
  easy = ap (λ s. s.sessions) (easy_lem size es);
  hard2_point = ap (λ s. s.point) (hard2_lem size es);
  hard2 = ap (λ s. s.sessions) (hard2_lem size es);
}
