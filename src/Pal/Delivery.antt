-- ===== src/Pal/Delivery.antt =====
-- The packets of the completion port, from the calls that put them there to the threads that take them.
pub mod Parts
pub mod Runs
pub mod Refine
pub mod Serve
use await.Base.{
  ℕ, zero, suc, ◌+◌, ◌<◌, ◌≤◌, ◌≡◌, refl, ap, sym, subst, Bool, true, false, List, [], ◌∷◌, ◌++◌,
  Option, none, some, total, total_split, total-append, Every, Every-split, Every-append, ◌==◌,
  arith, if◌then◌else◌,
}
use await.Pal.Queue.{
  Ends, returns, exits, overruns, and_then, Packet, CompletionQueue, Process, Turn, calls,
  thread_slots, new_queue, associate, stop, thread_turn,
}
use await.Pal.Threads.{new_queue_returns}
use await.Pal.Pool.{
  new_pool, associate_handle, post, stop_pool, destroy_pool, stop_queue, create, put, with_queue,
  delete_queue,
}

-- the process, the notifications that were asked for, and those that a thread has given
pub record World : Type 0 where
  pub process : Process
  pub submitted : List Turn
  pub called : List Turn

-- A function is a number above 0, as no function is at the address 0. `GetQueuedCompletionStatus` succeeds
-- for a packet without an error. A packet
-- is taken by a thread of the pool, which there has to be.
pub data Step : World → World → Type 0 where
  creates :
      {w : World} {p' : Process} (port_ok : Bool) (ok : ℕ → Bool) (thread_count : ℕ) (sync : Bool)
      → new_pool port_ok ok thread_count sync w.process ≡ returns p'
      → Step w (record w { process = p' })
  associates :
      {w : World} {p' : Process} (modes_ok port_ok : Bool) (h k : ℕ)
      → associate_handle modes_ok port_ok h (suc k) w.process ≡ returns p'
      → Step w (record w { process = p' })
  posts :
      {w : World} {p' : Process} (ok : Bool) (overlapped bytes k : ℕ)
      → post ok overlapped bytes (suc k) w.process ≡ returns p'
      → Step w (record {
        process = p';
        submitted = calls (suc k) overlapped 0 bytes ∷ w.submitted;
        called = w.called;
      })
  completes :
      {w : World} {q : CompletionQueue} (before after : List (ℕ × ℕ))
      (h fn overlapped error bytes : ℕ)
      → w.process.queue ≡ some q
      → q.associated ≡ before ++ ((h, fn) ∷ after)
      → Step w (record {
        process = record {
          queue = some (record q {
            packets =
                q.packets
                ++ (record { key = fn; overlapped = some overlapped; error = error; bytes = bytes }
                    ∷ []);
          });
          sync_completion = w.process.sync_completion;
        };
        submitted = calls fn overlapped error bytes ∷ w.submitted;
        called = w.called;
      })
  serves :
      {w : World} {q : CompletionQueue} {t : Turn} (before after : List Packet) (p : Packet)
      → w.process.queue ≡ some q
      → 0 < q.threads
      → q.packets ≡ before ++ (p ∷ after)
      → thread_turn (p.error == 0) p ≡ returns t
      → Step w (record {
        process = record {
          queue = some (record q { packets = before ++ after });
          sync_completion = w.process.sync_completion;
        };
        submitted = w.submitted;
        called = t ∷ w.called;
      })
  stops :
      {w : World} {p' : Process}
      → stop_pool w.process ≡ returns p'
      → Step w (record w { process = p' })
  destroys :
      {w : World} {p' : Process}
      → destroy_pool w.process ≡ returns p'
      → Step w (record w { process = p' })

pub data Reach : World → Type 0 where
  begins :
      (sync : Bool)
      → Reach (record {
        process = record { queue = none; sync_completion = sync };
        submitted = [];
        called = [];
      })
  goes : {w w' : World} → Reach w → Step w w' → Reach w'

abbrev pub overlapped_of : Option ℕ → ℕ
overlapped_of none = 0
overlapped_of (some o) = o

-- the notification that a packet stands for
abbrev pub notice : Packet → Turn
notice p = calls p.key (overlapped_of p.overlapped) p.error p.bytes

abbrev pub HasKey : ℕ × ℕ → Type 0
HasKey a = (k : ℕ) × (a.1 ≡ suc k)

-- a thread that takes the packet calls its function with the notification, and no check stops it
abbrev pub Callable : Packet → Type 0
Callable p = thread_turn (p.error == 0) p ≡ returns (notice p)

pub record Ported (q : CompletionQueue) (submitted called : List Turn) : Type 0 where
  pub keys : Every HasKey q.associated
  pub callable : Every Callable q.packets
  pub counted :
      (f : Turn → ℕ) → total f submitted ≡ total (λ p. f (notice p)) q.packets + total f called
  pub running : q.threads ≡ q.thread_count
  pub few : q.thread_count ≤ thread_slots

abbrev pub DeliversAt : Option CompletionQueue → List Turn → List Turn → Type 0
DeliversAt none submitted called = (submitted ≡ []) × (called ≡ [])
DeliversAt (some q) submitted called = Ported q submitted called

abbrev pub Delivers : World → Type 0
Delivers w = DeliversAt w.process.queue w.submitted w.called
