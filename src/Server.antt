-- ===== src/Server.antt =====
-- `session` and `server` of 2017_CppCon/live/myserver.cpp: a session reads a block, writes it back
-- and reads again, until an operation fails, and then has itself deleted. The server always waits for
-- the next connection. What has been started waits in `pending` until it completes or is run.
pub mod Serves
pub mod Accepts
use await.Base.{
  ℕ, zero, suc, ◌+◌, ◌≤◌, ◌≡◌, Bool, true, false, List, [], ◌∷◌, ◌++◌, if◌then◌else◌, length,
  replicate, take, overwrite,
}

pub data Op : Type 0 where
  reading : (size : ℕ) → Op
  writing : (size : ℕ) → Op
  destroying : Op  -- `destroy`, posted

pub record Session : Type 0 where
  pub block_size : ℕ
  pub buf : List ℕ
  pub read_data_length : ℕ

-- A session, what it has started, how often it was deleted, and what went over its connection.
pub record Peer : Type 0 where
  pub session : Session
  pub pending : List Op
  pub deleted : ℕ
  pub received : List (List ℕ)
  pub sent : List (List ℕ)

unfoldable pub new_session : ℕ → Session
new_session block_size = record {
  block_size = block_size;
  buf = replicate block_size 0;
  read_data_length = 0;
}

-- A handler gives the session and the operation it starts.
unfoldable pub start : Bool → Session → Session × List Op
start set_option_err s =
    if set_option_err then (s, destroying ∷ []) else (s, reading s.block_size ∷ [])

unfoldable pub handle_read : Bool → ℕ → Session → Session × List Op
handle_read err length s =
    if err
    then (s, destroying ∷ [])
    else (record s { read_data_length = length }, writing length ∷ [])

unfoldable pub handle_write : Bool → Session → Session × List Op
handle_write err s = if err then (s, destroying ∷ []) else (s, reading s.block_size ∷ [])

unfoldable pub destroy : Peer → Peer
destroy p = record p { deleted = p.deleted + 1 }

abbrev pub act : (Session → Session × List Op) → Peer → Peer
act f p = record p { session = (f p.session).0; pending = p.pending ++ (f p.session).1 }

abbrev pub store : List ℕ → Session → Session
store bytes s = record s { buf = overwrite bytes s.buf }

-- One completion. A read that succeeds brings no more than a full buffer, a write that succeeds has
-- sent all its bytes, and any operation may fail.
pub data Step : Peer → Peer → Type 0 where
  reads :
      {p : Peer} (before after : List Op) (size : ℕ) (bytes : List ℕ)
      → p.pending ≡ before ++ (reading size ∷ after)
      → length bytes ≤ size
      → Step p (
          act (handle_read false (length bytes)) (record p {
            session = store bytes p.session;
            pending = before ++ after;
            received = p.received ++ (bytes ∷ []);
          }))
  read_fails :
      {p : Peer} (before after : List Op) (size n : ℕ)
      → p.pending ≡ before ++ (reading size ∷ after)
      → Step p (act (handle_read true n) (record p { pending = before ++ after }))
  writes :
      {p : Peer} (before after : List Op) (size : ℕ)
      → p.pending ≡ before ++ (writing size ∷ after)
      → Step p (
          act (handle_write false) (record p {
            pending = before ++ after;
            sent = p.sent ++ (take size p.session.buf ∷ []);
          }))
  write_fails :
      {p : Peer} (before after : List Op) (size : ℕ)
      → p.pending ≡ before ++ (writing size ∷ after)
      → Step p (act (handle_write true) (record p { pending = before ++ after }))
  destroys :
      {p : Peer} (before after : List Op)
      → p.pending ≡ before ++ (destroying ∷ after)
      → Step p (destroy (record p { pending = before ++ after }))

pub record Server : Type 0 where
  pub block_size : ℕ
  pub accepting : ℕ  -- calls of `async_accept` under way
  pub sessions : List Peer

unfoldable pub start_accept : Server → Server
start_accept s = record s { accepting = s.accepting + 1 }

unfoldable pub new_server : ℕ → Server
unfolding start_accept
new_server block_size =
    start_accept (record { block_size = block_size; accepting = 0; sessions = [] })

-- a new session after its `start`
unfoldable pub started : Bool → ℕ → Peer
unfolding new_session start
started set_option_err block_size = act (start set_option_err) (record {
  session = new_session block_size;
  pending = [];
  deleted = 0;
  received = [];
  sent = [];
})

unfoldable pub handle_accept : Bool → Bool → Server → Server
unfolding start_accept started
handle_accept err set_option_err s =
    if err
    then start_accept s
    else start_accept
        (record s { sessions = s.sessions ++ (started set_option_err s.block_size ∷ []) })

-- The threads complete an accept or run a session, in any order.
pub data ServerStep : Server → Server → Type 0 where
  accepts :
      {s : Server} (n : ℕ) (err set_option_err : Bool)
      → s.accepting ≡ suc n
      → ServerStep s (handle_accept err set_option_err (record s { accepting = n }))
  session_steps :
      {s : Server} (before after : List Peer) (p p' : Peer)
      → s.sessions ≡ before ++ (p ∷ after)
      → Step p p'
      → ServerStep s (record s { sessions = before ++ (p' ∷ after) })
