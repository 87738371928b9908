-- ===== src/Launch.antt =====
-- The `main` programs of 2017_CppCon/live: myserver.cpp, hard1.cpp, easy.cpp and hard2.cpp, which differ in
-- the server that they make, and myclient.cpp. What the networking library does before the threads start is
-- an input: whether it throws. Threads can be made, and memory is not exhausted, but no array is larger than
-- what an address can reach. `atoi` is for a number that fits an `int`; the theorems ask for that.
pub mod Threads
pub mod Port
use await.Base.{
  ℕ, zero, suc, ◌+◌, ◌-◌, ◌%◌, ◌^◌, ◌≡◌, Bool, true, false, List, [], ◌∷◌, ltb, if◌then◌else◌,
  length, ◌==◌, ◌&&◌, ℤ, pos, negsuc, Option, none, some,
}
use Prim.Native.String.{String}
use await.Nano.{atoi}
use await.Server as Callbacks
use await.Hard
use await.Easy
use await.Hard2.Server as Coroutine
use await.Client.Fleet.{Client, new_client}

-- the conversions to `short`, to the port's unsigned short, and to `size_t`
abbrev pub mod_short : ℤ → ℕ
mod_short (pos n) = n % 2 ^ 16
mod_short (negsuc n) = 2 ^ 16 - 1 - n % 2 ^ 16

abbrev pub to_short : ℤ → ℤ
to_short z = let r = mod_short z in if ltb r (2 ^ 15) then pos r else negsuc (2 ^ 16 - 1 - r)

abbrev pub to_size : ℤ → ℕ
to_size (pos n) = n
to_size (negsuc n) = 2 ^ 64 - 1 - n

-- What the program has made: the server or client, the threads that are not yet joined, the calls of
-- `io.run`, the threads that were joined, and whether `main` caught an exception.
pub record Run {ℓ} (S : Type ℓ) : Type ℓ where
  pub made : Option S
  pub port : ℕ
  pub threads : ℕ
  pub runs : ℕ
  pub joined : ℕ
  pub caught : Bool

abbrev pub idle {ℓ} : (S : Type ℓ) → Run S
idle S = record { made = none; port = 0; threads = 0; runs = 0; joined = 0; caught = false }

-- `while (--thread_count > 0)`, from a count that is not negative
abbrev pub spawn_threads {ℓ} : {S : Type ℓ} → ℕ → Run S → Run S
spawn_threads zero r = r
spawn_threads (suc zero) r = r
spawn_threads (suc (suc n)) r =
    spawn_threads (suc n) (record r { threads = r.threads + 1; runs = r.runs + 1 })

-- `while (!threads.empty())`, by the number of threads
abbrev pub join_all {ℓ} : {S : Type ℓ} → ℕ → Run S → Run S
join_all zero r = r
join_all (suc n) r = join_all n (record r { threads = n; joined = r.joined + 1 })

-- from `threads.reserve` on, which throws for what a negative count is as a `size_t`
abbrev pub run_threads {ℓ} : {S : Type ℓ} → ℤ → Run S → Run S
run_threads (pos n) r =
    let spawned = spawn_threads n r in
    join_all spawned.threads (record spawned { runs = spawned.runs + 1 })
run_threads (negsuc n) r = record r { caught = true }

abbrev pub server_args : List String → List String
server_args argv =
    if length argv == 5 then argv else "myserver" ∷ "127.0.0.1" ∷ "8888" ∷ "4" ∷ "128" ∷ []

-- `main` of a server; `throws` says whether the address is none or the server cannot listen.
abbrev pub launch {ℓ} : {S : Type ℓ} → (ℕ → S) → Bool → List String → Run S
launch {S = S} new_server throws (name ∷ address ∷ port ∷ threads ∷ block_size ∷ []) =
    if throws
    then record (idle S) { caught = true }
    else run_threads (atoi threads) (record (idle S) {
      made = some (new_server (to_size (atoi block_size)));
      port = mod_short (to_short (atoi port));
    })
launch {S = S} new_server throws _ = idle S

unfoldable pub myserver_main : Bool → List String → Run Callbacks.Server
myserver_main throws argv = launch Callbacks.new_server throws (server_args argv)

unfoldable pub hard1_main : Bool → List String → Run Hard.Server
hard1_main throws argv = launch Hard.new_server throws (server_args argv)

unfoldable pub easy_main : Bool → List String → Run Easy.Server
easy_main throws argv = launch Easy.new_server throws (server_args argv)

unfoldable pub hard2_main : Bool → List String → Run Coroutine.Server
hard2_main throws argv = launch Coroutine.server throws (server_args argv)

abbrev pub client_args : List String → List String
client_args argv =
    if length argv == 7
    then argv
    else "myserver" ∷ "127.0.0.1" ∷ "8888" ∷ "4" ∷ "128" ∷ "14" ∷ "3" ∷ []

-- `new char[block_size]`, in the first session that the constructor of `client` makes, throws.
abbrev pub has_no_block : ℕ → ℕ → Bool
has_no_block size sessions = ltb 0 sessions && ltb (2 ^ 63 - 1) size

-- The port goes to the resolver as a string.
abbrev pub launch_client : (ℕ → List ℕ) → Bool → List String → Run Client
launch_client junk throws (name ∷ host ∷ port ∷ threads ∷ block_size ∷ sessions ∷ timeout ∷ []) =
    if throws
    then record (idle Client) { caught = true }
    else if has_no_block (to_size (atoi block_size)) (to_size (atoi sessions))
    then record (idle Client) { caught = true }
    else run_threads (atoi threads) (record (idle Client) {
      made = some (new_client (to_size (atoi block_size)) junk (to_size (atoi sessions)));
    })
launch_client junk throws _ = idle Client

unfoldable pub myclient_main : (ℕ → List ℕ) → Bool → List String → Run Client
myclient_main junk throws argv = launch_client junk throws (client_args argv)
