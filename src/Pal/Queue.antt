-- ===== src/Pal/Queue.antt =====
-- `CompletionQueue` and `ThreadPool` of 2015_CppCon/SuperLean/PAL.cpp. The completion port is the list of its
-- packets and the keys of the handles that were associated with it; what a call of the system returns is an
-- input. `exit` ends the process with a status: 1 in a panic, 0 in `Stop` and `release`.
use await.Base.{
  ℕ, zero, suc, ltb, ◌+◌, ◌-◌, ◌^◌, ◌%◌, Bool, List, [], ◌∷◌, Option, none, some, if◌then◌else◌,
  ◌==◌,
}

-- how a piece of code ends: it goes on with a value, the process exits with a status, or it writes outside
-- an array
pub data Ends {ℓ} (A : Type ℓ) : Type ℓ where
  returns : A → Ends A
  exits : (status : ℕ) → Ends A
  overruns : Ends A

abbrev pub and_then {ℓ κ} : {A : Type ℓ} {B : Type κ} → Ends A → (A → Ends B) → Ends B
and_then (returns a) f = f a
and_then (exits status) f = exits status
and_then overruns f = overruns

-- a packet of the port: the key, whether there is an `overlapped`, the error and the number of bytes
pub record Packet : Type 0 where
  pub key : ℕ
  pub overlapped : Option ℕ
  pub error : ℕ
  pub bytes : ℕ

-- `thread_count` and `count`, the threads that run `ThreadProc`, the packets, and the keys of the handles
pub record CompletionQueue : Type 0 where
  pub thread_count : ℕ
  pub count : ℕ
  pub threads : ℕ
  pub packets : List Packet
  pub associated : List (ℕ × ℕ)

-- the globals `queue` and `startSockets.syncCompletion`
pub record Process : Type 0 where
  pub queue : Option CompletionQueue
  pub sync_completion : Bool

-- `t[64]`
abbrev pub thread_slots : ℕ
thread_slots = 64

-- the loop of the constructor from `i` on, with `left` turns left; `ok` says which `CreateThread` succeeds
abbrev pub create_threads : (ℕ → Bool) → ℕ → ℕ → CompletionQueue → Ends CompletionQueue
create_threads ok i zero q = returns q
create_threads ok i (suc left) q =
    let next = create_threads ok (suc i) left (record q { threads = q.threads + 1 }) in
    if ltb i thread_slots then (if ok i then next else exits 1) else overruns

unfoldable pub new_queue : Bool → (ℕ → Bool) → ℕ → Ends CompletionQueue
new_queue port_ok ok thread_count =
    if port_ok
    then create_threads ok 0 thread_count (record {
      thread_count = thread_count;
      count = thread_count;
      threads = 0;
      packets = [];
      associated = [];
    })
    else exits 1

-- `release` and `Stop`: what follows `exit(0)` in `Stop` is never reached.
unfoldable pub release : CompletionQueue → Ends CompletionQueue
release q =
    let left = (q.count + (2 ^ 32 - 1)) % 2 ^ 32 in
    if left == 0 then exits 0 else returns (record q { count = left })

unfoldable pub stop : CompletionQueue → Ends CompletionQueue
stop q = exits 0

-- what a turn of `ThreadProc` does with the packet it was given, and with `success`
pub data Turn : Type 0 where
  calls : (key : ℕ) (overlapped error bytes : ℕ) → Turn  -- the handler's function, with the packet
  leaves : Turn  -- `break`

abbrev pub handle : Bool → Packet → Option ℕ → Ends Turn
handle success p none = if success then returns leaves else exits 1
handle success p (some overlapped) =
    if p.key == 0
    then exits 1
    else returns (calls p.key overlapped (if success then 0 else p.error) p.bytes)

unfoldable pub thread_turn : Bool → Packet → Ends Turn
thread_turn success p = handle success p p.overlapped

unfoldable pub associate : Bool → ℕ → ℕ → CompletionQueue → Ends CompletionQueue
associate ok io_handle key q =
    if ok then returns (record q { associated = (io_handle, key) ∷ q.associated }) else exits 1
