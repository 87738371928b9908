-- ===== src/Launch/Threads.antt =====
-- The threads of the main programs.
use await.Base.{
  ℕ, zero, suc, ◌+◌, ◌-◌, ◌^◌, ◌<◌, ◌≡◌, ltb, ◌&&◌, if◌then◌else◌, Every, refl, ap, ap₂, sym, subst,
  ◌∙◌, Bool, true, false, List, [], ◌∷◌, length, get_or, ℤ, pos, negsuc, some, arith, Bool-cases,
  inl, inr, ==_iff, ◌==◌,
}
use Prim.Native.String.{String}
use await.Nano.{atoi}
use await.Server as Callbacks
use await.Hard
use await.Easy
use await.Hard2.Server as Coroutine
use await.Client.Fleet.{Client, new_client}
use await.Launch
use await.Launch.Port.{mod_short-to_short}

abbrev pub runs_of : ℤ → ℕ
runs_of (pos n) = suc (n - 1)
runs_of (negsuc n) = 0

abbrev pub is_negative : ℤ → Bool
is_negative (pos n) = false
is_negative (negsuc n) = true

-- what `int` holds
abbrev pub IsInt : ℤ → Type 0
IsInt (pos n) = n < 2 ^ 31
IsInt (negsuc n) = n < 2 ^ 31

module _ {ℓ} {S : Type ℓ} where
  -- every field but the threads and the calls of `run` stays
  spawn_threads_lem :
      (n : ℕ) (r : Launch.Run S)
      → Launch.spawn_threads n r
        ≡ record r { threads = r.threads + (n - 1); runs = r.runs + (n - 1) }
  spawn_threads_lem zero r =
      ap₂ (λ k l. record r { threads = k; runs = l }) (omega arith) (omega arith)
  spawn_threads_lem (suc zero) r =
      ap₂ (λ k l. record r { threads = k; runs = l }) (omega arith) (omega arith)
  spawn_threads_lem (suc (suc n)) r =
      spawn_threads_lem (suc n) (record r { threads = r.threads + 1; runs = r.runs + 1 })
      ∙ ap₂ (λ k l. record r { threads = k; runs = l }) (omega arith) (omega arith)

  join_lem :
      (n : ℕ) (r : Launch.Run S)
      → r.threads ≡ n
      → Launch.join_all n r ≡ record r { threads = 0; joined = r.joined + n }
  join_lem zero r h = ap₂ (λ k l. record r { threads = k; joined = l }) h (omega arith)
  join_lem (suc n) r h =
      join_lem n (record r { threads = n; joined = r.joined + 1 }) refl
      ∙ ap (λ l. record r { threads = 0; joined = l }) (omega arith)

  -- what is left of a run when `main` returns
  pub record Ended (made : S) (port : ℕ) (count : ℤ) (r : Launch.Run S) : Type ℓ where
    pub made_one : r.made ≡ some made
    pub port_kept : r.port ≡ port
    pub no_threads : r.threads ≡ 0
    pub runs_all : r.runs ≡ runs_of count
    pub joins_all : r.joined ≡ runs_of count - 1
    pub catches : r.caught ≡ is_negative count

  pub run_threads-Ended :
      (count : ℤ) (made : S) (port : ℕ)
      → Ended made port count
          (Launch.run_threads count (record (Launch.idle S) { made = some made; port = port }))
  run_threads-Ended (negsuc n) made port = record {
    made_one = refl;
    port_kept = refl;
    no_threads = refl;
    runs_all = refl;
    joins_all = refl;
    catches = refl;
  }
  run_threads-Ended (pos n) made port =
      let start : Launch.Run S = record (Launch.idle S) { made = some made; port = port } in
      let end : Launch.Run S = record start { threads = 0 + (n - 1); runs = 0 + (n - 1) + 1 } in
      subst (Ended made port (pos n))
        (sym (
          ap (λ r. Launch.join_all r.threads (record r { runs = r.runs + 1 }))
            (spawn_threads_lem n start)
          ∙ join_lem (0 + (n - 1)) end refl))
        (record {
          made_one = refl;
          port_kept = refl;
          no_threads = refl;
          runs_all = omega arith;
          joins_all = omega arith;
          catches = refl;
        })

-- an argument by its place
abbrev pub arg : List String → ℕ → String
arg args i = get_or args i ""

abbrev pub Launched {ℓ} : {S : Type ℓ} → (ℕ → S) → List String → Launch.Run S → Type ℓ
Launched new_server args r =
    Ended (new_server (Launch.to_size (atoi (arg args 4)))) (Launch.mod_short (atoi (arg args 2)))
      (atoi (arg args 3)) r

launch-Launched {ℓ} :
    {S : Type ℓ} (new_server : ℕ → S) (args : List String)
    → length args ≡ 5
    → Launched new_server args (Launch.launch new_server false args)
launch-Launched {S = S} new_server (name ∷ address ∷ port ∷ threads ∷ block_size ∷ []) h =
    let made = new_server (Launch.to_size (atoi block_size)) in
    subst
      (λ p. Ended made p (atoi threads) (
        Launch.run_threads (atoi threads) (record (Launch.idle S) {
          made = some made;
          port = Launch.mod_short (Launch.to_short (atoi port));
        })))
      (mod_short-to_short (atoi port))
      (run_threads-Ended (atoi threads) made (Launch.mod_short (Launch.to_short (atoi port))))
launch-Launched new_server [] h = absurd (omega (arith, h))
launch-Launched new_server (a ∷ []) h = absurd (omega (arith, h))
launch-Launched new_server (a ∷ b ∷ []) h = absurd (omega (arith, h))
launch-Launched new_server (a ∷ b ∷ c ∷ []) h = absurd (omega (arith, h))
launch-Launched new_server (a ∷ b ∷ c ∷ d ∷ []) h = absurd (omega (arith, h))
launch-Launched new_server (a ∷ b ∷ c ∷ d ∷ e ∷ f ∷ rest) h = absurd (omega (arith, h))

server_args-length : (argv : List String) → length (Launch.server_args argv) ≡ 5
server_args-length argv = elim (Bool-cases (length argv == 5)) [
  | inl t ↦ rw t (((==_iff (length argv) 5).0) t)
  | inr f ↦ rw f refl
]

client_args-length : (argv : List String) → length (Launch.client_args argv) ≡ 7
client_args-length argv = elim (Bool-cases (length argv == 7)) [
  | inl t ↦ rw t (((==_iff (length argv) 7).0) t)
  | inr f ↦ rw f refl
]

-- what `main` of the client leaves, by whether it has no array for a block
abbrev pub ClientRun : Bool → ℤ → Client → Launch.Run Client → Type 0
ClientRun true count made r = r ≡ record (Launch.idle Client) { caught = true }
ClientRun false count made r = Ended made 0 count r

-- The client's arguments: the block size is the fifth, the number of sessions the sixth.
abbrev pub ClientLaunched : (ℕ → List ℕ) → List String → Launch.Run Client → Type 0
ClientLaunched junk args r =
    ClientRun (ltb 0 (Launch.to_size (atoi (arg args 5))) && is_negative (atoi (arg args 4)))
      (atoi (arg args 3))
      (new_client (Launch.to_size (atoi (arg args 4))) junk (Launch.to_size (atoi (arg args 5)))) r

-- An `int` is too large for an array if and only if it is negative.
too_large_lem : (z : ℤ) → IsInt z → ltb (2 ^ 63 - 1) (Launch.to_size z) ≡ is_negative z
too_large_lem (pos n) h = ground (arith, h)
too_large_lem (negsuc n) h = ground (arith, h)

client_run_lem :
    (b : Bool) (count : ℤ) (made : Client)
    → ClientRun b count made (
        if b
        then record (Launch.idle Client) { caught = true }
        else Launch.run_threads count (record (Launch.idle Client) { made = some made }))
client_run_lem true count made = refl
client_run_lem false count made = run_threads-Ended count made 0

launch_client-Launched :
    (junk : ℕ → List ℕ) (args : List String)
    → length args ≡ 7
    → IsInt (atoi (arg args 4))
    → ClientLaunched junk args (Launch.launch_client junk false args)
launch_client-Launched junk (name ∷ host ∷ port ∷ threads ∷ block_size ∷ sessions ∷ timeout ∷ []) h
      is_int =
    let size = Launch.to_size (atoi block_size) in
    let count = Launch.to_size (atoi sessions) in
    let made = new_client size junk count in
    subst
      (λ b. ClientRun (ltb 0 count && b) (atoi threads) made (
        Launch.launch_client junk false
          (name ∷ host ∷ port ∷ threads ∷ block_size ∷ sessions ∷ timeout ∷ [])))
      (too_large_lem (atoi block_size) is_int)
      (client_run_lem (Launch.has_no_block size count) (atoi threads) made)
launch_client-Launched junk [] h is_int = absurd (omega (arith, h))
launch_client-Launched junk (a ∷ []) h is_int = absurd (omega (arith, h))
launch_client-Launched junk (a ∷ b ∷ []) h is_int = absurd (omega (arith, h))
launch_client-Launched junk (a ∷ b ∷ c ∷ []) h is_int = absurd (omega (arith, h))
launch_client-Launched junk (a ∷ b ∷ c ∷ d ∷ []) h is_int = absurd (omega (arith, h))
launch_client-Launched junk (a ∷ b ∷ c ∷ d ∷ e ∷ []) h is_int = absurd (omega (arith, h))
launch_client-Launched junk (a ∷ b ∷ c ∷ d ∷ e ∷ f ∷ []) h is_int = absurd (omega (arith, h))
launch_client-Launched junk (a ∷ b ∷ c ∷ d ∷ e ∷ f ∷ g ∷ i ∷ rest) h is_int =
    absurd (omega (arith, h))

-- the five programs, each on the same arguments
pub record AllLaunched (junk : ℕ → List ℕ) (argv : List String) : Type 0 where
  pub myserver :
      Launched Callbacks.new_server (Launch.server_args argv) (Launch.myserver_main false argv)
  pub hard1 : Launched Hard.new_server (Launch.server_args argv) (Launch.hard1_main false argv)
  pub easy : Launched Easy.new_server (Launch.server_args argv) (Launch.easy_main false argv)
  pub hard2 : Launched Coroutine.server (Launch.server_args argv) (Launch.hard2_main false argv)
  pub myclient :
      ClientLaunched junk (Launch.client_args argv) (Launch.myclient_main junk false argv)

-- When the networking library does not throw, threads and memory do not run out, and the numbers
-- among the arguments fit an `int`, the number of sessions not negative: the main programs of the
-- four servers and of the client make what they are asked for, a server with the block size and,
-- modulo 2^16, the port that were asked for, or a client with the block size and the number of
-- sessions. Each calls `io.run` in as many threads as were asked for, the main one among them and
-- at least in that one, and joins all the others; but for a negative number of threads it runs
-- nothing and catches an exception. So does the client, which then makes nothing, for a negative
-- block size and at least one session. With a wrong number of arguments the default ones are taken.
pub main-AllLaunched :
    (junk : ℕ → List ℕ) (argv : List String)
    → Every (λ i. IsInt (atoi (arg (Launch.server_args argv) i))) (2 ∷ 3 ∷ 4 ∷ [])
    → Every (λ i. IsInt (atoi (arg (Launch.client_args argv) i))) (3 ∷ 4 ∷ 5 ∷ 6 ∷ [])
    → is_negative (atoi (arg (Launch.client_args argv) 5)) ≡ false
    → AllLaunched junk argv
unfolding Launch.myserver_main Launch.hard1_main Launch.easy_main Launch.hard2_main
    Launch.myclient_main
main-AllLaunched junk argv server_ints client_ints no_negative =
    let args = Launch.server_args argv in
    record {
      myserver = launch-Launched Callbacks.new_server args (server_args-length argv);
      hard1 = launch-Launched Hard.new_server args (server_args-length argv);
      easy = launch-Launched Easy.new_server args (server_args-length argv);
      hard2 = launch-Launched Coroutine.server args (server_args-length argv);
      myclient =
          launch_client-Launched junk (Launch.client_args argv) (client_args-length argv)
            client_ints.1.0;
    }
