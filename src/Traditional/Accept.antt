-- ===== src/Traditional/Accept.antt =====
-- `Listener` and `Server` of 2015_CppCon/SuperLean/Traditional.cpp, with the writers of all the connections
-- that it has accepted. `panic_if` ends the program, which is a `fault`.
use await.Base.{
  ℕ, suc, ◌+◌, ◌≡◌, Bool, false, List, [], ◌∷◌, ◌++◌, if◌then◌else◌, Outcome, done, fault,
}
use await.Pal.{WsaResult}
use await.Traditional.{Writer, new_writer, on_write}

pub record Server : Type 0 where
  pub accepting : ℕ  -- calls of `Accept` under way
  pub writers : List Writer

-- `Listener::Accept`; the socket panics unless the call is left under way
unfoldable pub accept : Server → Server
accept s = record s { accepting = s.accepting + 1 }

-- `Start`
unfoldable pub start : Server
unfolding accept
start = accept (record { accepting = 0; writers = [] })

-- `OnAccept`, with the result of the first call of the new writer
unfoldable pub on_accept : Bool → Bool → WsaResult → Server → Outcome Server
unfolding accept new_writer
on_accept sync ec result s =
    if ec
    then fault
    else done (accept (record s { writers = s.writers ++ (new_writer sync result ∷ []) }))

-- A completion: of the accept, of a writer's call, or of what a constructor has posted.
pub data Step (sync : Bool) : Server → Server → Type 0 where
  accepts :
      {s s' : Server} (n : ℕ) (ec : Bool) (result : WsaResult)
      → s.accepting ≡ suc n
      → on_accept sync ec result (record s { accepting = n }) ≡ done s'
      → Step sync s s'
  writes :
      {s : Server} (before after : List Writer) (w : Writer) (n : ℕ) (ec : Bool)
      (results : List WsaResult)
      → s.writers ≡ before ++ (w ∷ after)
      → w.writing ≡ suc n
      → Step sync s (record s {
        writers = before ++ (on_write sync ec results (record w { writing = n }) ∷ after);
      })
  posted :
      {s : Server} (before after : List Writer) (w : Writer) (n : ℕ) (results : List WsaResult)
      → s.writers ≡ before ++ (w ∷ after)
      → w.posted ≡ suc n
      → Step sync s (record s {
        writers = before ++ (on_write sync false results (record w { posted = n }) ∷ after);
      })
