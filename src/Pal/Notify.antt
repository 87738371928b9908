-- ===== src/Pal/Notify.antt =====
-- How a call of `Receive` or `Send`, and a `Post`, of 2015_CppCon/SuperLean/PAL.cpp comes to be known to have
-- ended: at once, by its status, or by a packet of the completion port. A call is the number of those before
-- it, which stands for its `os_async_context`. What Winsock does is in `issue`, as documented: a call that
-- succeeds at once queues a packet unless its handle skips that, a call that is left pending does later, and
-- a call that fails does not.
pub mod Once
pub mod Runs
use await.Base.{
  ℕ, suc, ◌+◌, ◌≡◌, ◌≢◌, Bool, false, List, [], ◌∷◌, ◌++◌, Option, none, some, ◌==◌, if◌then◌else◌,
}
use await.Pal.{WsaResult, success, socket_error, io_pending, receive, send}
use await.Pal.Queue.{returns, Packet, CompletionQueue, Process, calls, thread_turn}
use await.Pal.Pool.{new_pool, associate_modes, post, stop_pool, destroy_pool}

-- a handle of the port, its function, and whether FILE_SKIP_COMPLETION_PORT_ON_SUCCESS was set for it
pub record Handle : Type 0 where
  pub number : ℕ
  pub key : ℕ
  pub skips : Bool

-- The number of calls that were made, those whose status said that they had ended, those whose status was
-- an error, those that the system has to complete, with their functions, and those whose function was called.
pub record World : Type 0 where
  pub process : Process
  pub handles : List Handle
  pub made : ℕ
  pub told : List ℕ
  pub failed : List ℕ
  pub under_way : List (ℕ × ℕ)
  pub called : List ℕ

abbrev pub queued : Packet → Option CompletionQueue → Option CompletionQueue
queued p none = none
queued p (some q) = some (record q { packets = q.packets ++ (p ∷ []) })

abbrev pub put_packet : Packet → World → World
put_packet p w = record w { process = record w.process { queue = queued p w.process.queue } }

-- what the system does with a call on a handle
abbrev pub issue : Handle → WsaResult → ℕ → World → World
issue h (success bytes) c w =
    if h.skips
    then w
    else put_packet (record { key = h.key; overlapped = some c; error = 0; bytes = bytes }) w
issue h (socket_error code) c w =
    if code == io_pending then record w { under_way = (c, h.key) ∷ w.under_way } else w

-- how `Connection::Read` and `Write` take the status of the call
abbrev pub tell : ℕ → ℕ → World → World
tell status c w =
    if status == io_pending
    then record w { told = c ∷ w.told }
    else if status == 0
    then w
    else record w { failed = c ∷ w.failed }

-- An error code is not 0.
abbrev pub IsResult : WsaResult → Type 0
IsResult (success bytes) = Unit
IsResult (socket_error code) = code ≢ 0

pub data Step : World → World → Type 0 where
  creates :
      {w : World} {p' : Process} (port_ok : Bool) (ok : ℕ → Bool) (thread_count : ℕ) (sync : Bool)
      → new_pool port_ok ok thread_count sync w.process ≡ returns p'
      → Step w (record w { process = p' })
  associates :
      {w : World} {p' : Process} (modes_ok port_ok skips : Bool) (h k : ℕ)
      → associate_modes modes_ok port_ok h (suc k) w.process ≡ returns (skips, p')
      → Step w (record w {
        process = p';
        handles = record { number = h; key = suc k; skips = skips } ∷ w.handles;
      })
  receives :
      {w : World} (before after : List Handle) (h : Handle) (result : WsaResult)
      → w.handles ≡ before ++ (h ∷ after)
      → IsResult result
      → Step w (
          tell
            (receive w.process.sync_completion result)
            w.made
            (issue h result w.made (record w { made = w.made + 1 })))
  sends :
      {w : World} (before after : List Handle) (h : Handle) (result : WsaResult)
      → w.handles ≡ before ++ (h ∷ after)
      → IsResult result
      → Step w (
          tell
            (send w.process.sync_completion result)
            w.made
            (issue h result w.made (record w { made = w.made + 1 })))
  posts :
      {w : World} {p' : Process} (ok : Bool) (bytes k : ℕ)
      → post ok w.made bytes (suc k) w.process ≡ returns p'
      → Step w (record w { process = p'; made = w.made + 1 })
  completes :
      {w : World} (before after : List (ℕ × ℕ)) (c key error bytes : ℕ)
      → w.under_way ≡ before ++ ((c, key) ∷ after)
      → Step w (
          put_packet
            (record { key = key; overlapped = some c; error = error; bytes = bytes })
            (record w { under_way = before ++ after }))
  serves :
      {w : World} {q : CompletionQueue} (before after : List Packet) (p : Packet)
      (key c error bytes : ℕ)
      → w.process.queue ≡ some q
      → q.packets ≡ before ++ (p ∷ after)
      → thread_turn (p.error == 0) p ≡ returns (calls key c error bytes)
      → Step w (record w {
        process = record w.process { queue = some (record q { packets = before ++ after }) };
        called = c ∷ w.called;
      })
  stops :
      {w : World} {p' : Process}
      → stop_pool w.process ≡ returns p'
      → Step w (record w { process = p' })
  destroys :
      {w : World} {p' : Process}
      → destroy_pool w.process ≡ returns p'
      → Step w (record w { process = p' })

pub data Reach : World → Type 0 where
  begins :
      (sync : Bool)
      → Reach (record {
        process = record { queue = none; sync_completion = sync };
        handles = [];
        made = 0;
        told = [];
        failed = [];
        under_way = [];
        called = [];
      })
  goes : {w w' : World} → Reach w → Step w w' → Reach w'
