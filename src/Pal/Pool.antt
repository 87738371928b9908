-- ===== src/Pal/Pool.antt =====
-- `ThreadPool` of 2015_CppCon/SuperLean/PAL.cpp, on the globals `queue` and `startSockets.syncCompletion`.
use await.Base.{ℕ, ◌+◌, ◌*◌, Bool, true, false, [], ◌∷◌, ◌++◌, Option, none, some, if◌then◌else◌}
use await.Pal.Queue.{
  Ends, returns, exits, and_then, CompletionQueue, Process, new_queue, associate, stop,
}

abbrev pub with_queue {ℓ} :
    {A : Type ℓ} → Option CompletionQueue → (CompletionQueue → Ends A) → Ends A
with_queue none f = exits 1
with_queue (some q) f = f q

abbrev pub put : Process → CompletionQueue → Ends Process
put p q = returns (record p { queue = some q })

-- the constructor
abbrev pub create : Option CompletionQueue → Bool → (ℕ → Bool) → ℕ → Bool → Process → Ends Process
create (some q) port_ok ok thread_count enable_sync p = exits 1
create none port_ok ok thread_count enable_sync p =
    and_then (new_queue port_ok ok thread_count) (λ q. returns (record {
      queue = some q;
      sync_completion = if enable_sync then p.sync_completion else false;
    }))

unfoldable pub new_pool : Bool → (ℕ → Bool) → ℕ → Bool → Process → Ends Process
new_pool port_ok ok thread_count enable_sync p =
    create p.queue port_ok ok thread_count enable_sync p

-- `ThreadPool q(nReaders * 2 + 8, sync)`, the first line of `run`
unfoldable pub readers_pool : Bool → (ℕ → Bool) → ℕ → Bool → Process → Ends Process
unfolding new_pool
readers_pool port_ok ok readers sync p = new_pool port_ok ok (readers * 2 + 8) sync p

-- the modes that `AssociateHandle` sets: whether the handle gets FILE_SKIP_COMPLETION_PORT_ON_SUCCESS
abbrev pub set_modes : Bool → Process → Ends Bool
set_modes modes_ok p =
    if p.sync_completion then (if modes_ok then returns true else exits 1) else returns false

-- `AssociateHandle`, with the mode that the handle then has: `modes_ok` and `port_ok` are what the two
-- calls of the system return.
abbrev pub associate_modes : Bool → Bool → ℕ → ℕ → Process → Ends (Bool × Process)
associate_modes modes_ok port_ok h fn p = with_queue p.queue (λ q.
    and_then (set_modes modes_ok p) (λ skips.
      and_then (associate port_ok h fn q) (λ q'. returns (skips, record p { queue = some q' }))))

unfoldable pub associate_handle : Bool → Bool → ℕ → ℕ → Process → Ends Process
associate_handle modes_ok port_ok h fn p =
    and_then (associate_modes modes_ok port_ok h fn p) (λ r. returns r.1)

unfoldable pub post : Bool → ℕ → ℕ → ℕ → Process → Ends Process
post ok overlapped bytes fn p = with_queue p.queue (λ q.
    if ok
    then put p (record q {
      packets =
          q.packets
          ++ (record { key = fn; overlapped = some overlapped; error = 0; bytes = bytes } ∷ []);
    })
    else exits 1)

-- `Stop`, and the destructor, which deletes the queue
abbrev pub stop_queue : Option CompletionQueue → Process → Ends Process
stop_queue none p = returns p
stop_queue (some q) p = and_then (stop q) (put p)

unfoldable pub stop_pool : Process → Ends Process
stop_pool p = stop_queue p.queue p

abbrev pub delete_queue : Option CompletionQueue → Process → Ends Process
delete_queue none p = returns (record p { queue = none })
delete_queue (some q) p = and_then (stop q) (λ _. returns (record p { queue = none }))

unfoldable pub destroy_pool : Process → Ends Process
destroy_pool p = delete_queue p.queue p
