-- ===== src/Improved/Attends.antt =====
-- The server of Improved.cpp with the writers of all its connections.
use await.Base.{
  ℕ, suc, ◌+◌, ◌≡◌, refl, subst, Bool, true, false, List, [], ◌∷◌, ◌++◌, Every, Every-append,
  Every-replace, done, arith,
}
use await.Pal.{WsaResult, send, Called, again, under_way, invoked}
use await.Traditional.Accept as TraditionalServer
use await.Traditional.Attends as Traditional
use await.Improved.{Writer, conn_write, new_writer, write_loop, on_write}
use await.Improved.Accept.{Server, Step, accepts, writes, posted, accept, start, on_accept}

-- what a writer has under way, and what ended it
abbrev pub busy : Writer → ℕ
busy w = w.writing + w.posted + w.failed

abbrev pub Owns : ℕ → Writer → Type 0
Owns n w = (busy w ≡ n) × (w.handlers ≡ 1)

conn_write-cases :
    (sync : Bool) (result : WsaResult) (w : Writer)
    → let (called, w') = conn_write sync result w in
      (busy w' ≡ busy w + elim called [ again ↦ 0 | under_way ↦ 1 | invoked ↦ 1 ])
      × (w'.handlers ≡ w.handlers)
unfolding conn_write send
conn_write-cases sync result w = ground arith

-- Each call of a handler puts one thing in the place of the one that is over.
write_loop-Owns :
    (sync : Bool) (results : List WsaResult) (w : Writer)
    → Owns 0 w
    → Owns 1 (write_loop sync results w)
unfolding conn_write send
write_loop-Owns sync [] w h = ground (arith, h)
write_loop-Owns sync (result ∷ results) w h =
    by_end (conn_write sync result w).0 (conn_write sync result w).1
      (conn_write-cases sync result w) (write_loop-Owns sync results (conn_write sync result w).1)
  where
    by_end :
        (called : Called) (w' : Writer)
        → (busy w' ≡ busy w + elim called [ again ↦ 0 | under_way ↦ 1 | invoked ↦ 1 ])
          × (w'.handlers ≡ w.handlers)
        → (Owns 0 w' → Owns 1 (write_loop sync results w'))
        → Owns 1
            (elim called [ again ↦ write_loop sync results w' | under_way ↦ w' | invoked ↦ w' ])
    by_end again w' e ih = ih (omega (arith, e, h))
    by_end under_way w' e ih = omega (arith, e, h)
    by_end invoked w' e ih = omega (arith, e, h)

on_write-Owns :
    (sync ec : Bool) (results : List WsaResult) (w : Writer)
    → Owns 0 w
    → Owns 1 (on_write sync ec results w)
unfolding on_write
on_write-Owns sync true results w h = omega (arith, h)
on_write-Owns sync false results w h = write_loop-Owns sync results w h

new_writer-Owns : (sync : Bool) (result : WsaResult) → Owns 1 (new_writer sync result)
unfolding new_writer conn_write send
new_writer-Owns sync result = ground arith

pub data Reach (sync : Bool) : Server → Type 0 where
  begins : Reach sync start
  goes : {s s' : Server} → Reach sync s → Step sync s s' → Reach sync s'

pub record Attends (s : Server) : Type 0 where
  pub one_accept : s.accepting ≡ 1
  pub writing : Every (Owns 1) s.writers

accept-Attends :
    (sync ec : Bool) (result : WsaResult) (n : ℕ) (s s' : Server)
    → Attends s
    → s.accepting ≡ suc n
    → on_accept sync ec result (record s { accepting = n }) ≡ done s'
    → Attends s'
unfolding on_accept accept
accept-Attends sync true result n s s' a one e = absurd (cc)
accept-Attends sync false result n s s' a one e =
    let same : record s { accepting = n + 1; writers = s.writers ++ (new_writer sync result ∷ []) }
        ≡ s' =
      cc in
    subst Attends same (record {
      one_accept = omega (arith, one, a.one_accept);
      writing = Every-append (Owns 1) s.writers _ a.writing (new_writer-Owns sync result, tt);
    })

pub improved-Attends : {sync : Bool} {s : Server} → Reach sync s → Attends s
unfolding start accept
improved-Attends begins = record { one_accept = refl; writing = tt }
improved-Attends {sync = sync} (goes {s = s} {s' = s'} run (accepts n ec result one e)) =
    accept-Attends sync ec result n s s' (improved-Attends run) one e
improved-Attends {sync = sync} (goes {s = s} run (writes before after w n ec results e some)) =
    let a = improved-Attends run in
    record {
      one_accept = a.one_accept;
      writing =
          Every-replace (Owns 1) before w _ after (subst (Every (Owns 1)) e a.writing) (λ h.
            on_write-Owns sync ec results (record w { writing = n }) (omega (arith, h, some)));
    }
improved-Attends {sync = sync} (goes {s = s} run (posted before after w n results e some)) =
    let a = improved-Attends run in
    record {
      one_accept = a.one_accept;
      writing = Every-replace (Owns 1) before w _ after (subst (Every (Owns 1)) e a.writing) (λ h.
          on_write-Owns sync false results (record w { posted = n }) (omega (arith, h, some)));
    }

-- In every run of the servers of Traditional.cpp and Improved.cpp that no panic ends, just one
-- accept is under way, and each writer has one write under way or one completion posted until a
-- call or a completion fails, and then none; and in Improved.cpp one handler serves all calls of a
-- writer.
pub servers-Attend :
    {sync other_sync : Bool} {t : TraditionalServer.Server} {i : Server}
    → Traditional.Reach sync t
    → Reach other_sync i
    → Traditional.Attends t × Attends i
servers-Attend t i = (Traditional.traditional-Attends t, improved-Attends i)
