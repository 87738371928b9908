-- ===== src/Client.antt =====
-- `session` of 2017_CppCon/live/myclient.cpp: it sends a first block and then sends back what it
-- reads, with one read and one write at a time, in two arrays that it swaps. An operation that the
-- session has started waits in `pending` until the network completes it. The strand runs one handler
-- at a time. `int` and `size_t` counters wrap around.
pub mod Valid
pub mod Swap
pub mod Steps
pub mod Failures
pub mod Runs
pub mod Echo
pub mod Fleet
pub mod Totals
pub mod Handlers
use await.Base.{
  ℕ, zero, suc, ◌+◌, ◌-◌, ◌%◌, ◌^◌, ◌≤◌, ◌≡◌, Bool, true, false, List, [], ◌∷◌, ◌++◌, ◌==◌, map,
  if◌then◌else◌, length, take, overwrite,
}

-- the two arrays of the constructor, by what each is at first
pub data Block : Type 0 where
  one : Block  -- `read_data_`
  two : Block  -- `write_data_`

abbrev pub same : Block → Block → Bool
same one one = true
same one two = false
same two one = false
same two two = true

pub data Op : Type 0 where
  connecting : Op
  reading : (block : Block) (size : ℕ) → Op
  writing : (block : Block) (size : ℕ) → Op
  closing : Op

pub record Session : Type 0 where
  pub is_open : Bool  -- `socket_`
  pub block_size : ℕ
  pub read_data : Block
  pub read_data_length : ℕ
  pub write_data : Block
  pub unwritten_count : ℕ
  pub bytes_written : ℕ
  pub bytes_read : ℕ

-- `++unwritten_count_` and `--unwritten_count_`, as 32-bit words
abbrev pub inc : ℕ → ℕ
inc n = (n + 1) % 2 ^ 32

abbrev pub dec : ℕ → ℕ
dec n = (n + (2 ^ 32 - 1)) % 2 ^ 32

-- `+=` on `size_t`
abbrev pub add64 : ℕ → ℕ → ℕ
add64 a b = (a + b) % 2 ^ 64

-- `n` cells of the first block, from the index `i`
abbrev pub pattern_from : ℕ → ℕ → List ℕ
pattern_from zero i = []
pattern_from (suc n) i = i % 128 ∷ pattern_from n (i + 1)

unfoldable pub new_session : ℕ → Session
new_session size = record {
  is_open = true;
  block_size = size;
  read_data = one;
  read_data_length = 0;
  write_data = two;
  unwritten_count = 0;
  bytes_written = 0;
  bytes_read = 0;
}

-- A handler gives the session and the operations it starts.
abbrev pub start : Session → Session × List Op
start s = (s, connecting ∷ [])

abbrev pub stop : Session → Session × List Op
stop s = (s, closing ∷ [])

unfoldable pub handle_connect : Bool → Bool → Session → Session × List Op
handle_connect err set_option_err s = if err then (s, []) else if set_option_err then (s, []) else (
  record s { unwritten_count = inc s.unwritten_count },
  writing s.write_data s.block_size ∷ reading s.read_data s.block_size ∷ [],
)

-- the swap of the arrays, and the write and the read that follow it, in both handlers
abbrev pub swap_and_go : Session → Session × List Op
swap_and_go s = (
  record s { read_data = s.write_data; write_data = s.read_data },
  writing s.read_data s.read_data_length ∷ reading s.write_data s.block_size ∷ [],
)

abbrev pub go_if_one : Session → Session × List Op
go_if_one s = if s.unwritten_count == 1 then swap_and_go s else (s, [])

unfoldable pub handle_read : Bool → ℕ → Session → Session × List Op
handle_read err length s =
    if err
    then (s, [])
    else go_if_one (record s {
      bytes_read = add64 s.bytes_read length;
      read_data_length = length;
      unwritten_count = inc s.unwritten_count;
    })

unfoldable pub handle_write : Bool → ℕ → Session → Session × List Op
handle_write err length s =
    if err
    then (s, [])
    else if length == 0
    then (s, [])
    else go_if_one (record s {
      bytes_written = add64 s.bytes_written length;
      unwritten_count = dec s.unwritten_count;
    })

unfoldable pub close_socket : Session → Session
close_socket s = record s { is_open = false }

-- A session with its arrays, what it has started, and what has gone over its connection.
pub record World : Type 0 where
  pub session : Session
  pub memory : Block → List ℕ
  pub pending : List Op
  pub received : List (List ℕ)
  pub sent : List (List ℕ)
  pub failures : ℕ  -- operations that have failed

abbrev pub act : (Session → Session × List Op) → World → World
act f w = record w { session = (f w.session).0; pending = w.pending ++ (f w.session).1 }

-- the array of the read after the bytes have come in
abbrev pub store : Block → List ℕ → (Block → List ℕ) → Block → List ℕ
store b bytes memory b' = if same b b' then overwrite bytes (memory b') else memory b'

-- a new session that has been started; `junk` is what the array for the reads holds at first
unfoldable pub started : ℕ → List ℕ → World
unfolding new_session
started size junk = act start (record {
  session = new_session size;
  memory = λ b. if same b one then junk else pattern_from size 0;
  pending = [];
  received = [];
  sent = [];
  failures = 0;
})

-- One completion. A read of a connected socket that succeeds brings between one byte and a full
-- array, a write that succeeds has sent all its bytes, and any operation may fail.
pub data Step : World → World → Type 0 where
  connects :
      {w : World} (before after : List Op) (err set_option_err : Bool)
      → w.pending ≡ before ++ (connecting ∷ after)
      → Step w (
          act (handle_connect err set_option_err) (record w {
            pending = before ++ after;
            failures =
                if err
                then w.failures + 1
                else if set_option_err
                then w.failures + 1
                else w.failures;
          }))
  reads :
      {w : World} (before after : List Op) (b : Block) (size : ℕ) (bytes : List ℕ)
      → w.pending ≡ before ++ (reading b size ∷ after)
      → 1 ≤ length bytes
      → length bytes ≤ size
      → Step w (
          act (handle_read false (length bytes)) (record w {
            pending = before ++ after;
            memory = store b bytes w.memory;
            received = w.received ++ (bytes ∷ []);
          }))
  read_fails :
      {w : World} (before after : List Op) (b : Block) (size n : ℕ)
      → w.pending ≡ before ++ (reading b size ∷ after)
      → Step w (
          act
            (handle_read true n)
            (record w { pending = before ++ after; failures = w.failures + 1 }))
  writes :
      {w : World} (before after : List Op) (b : Block) (size : ℕ)
      → w.pending ≡ before ++ (writing b size ∷ after)
      → Step w (
          act (handle_write false size) (record w {
            pending = before ++ after;
            sent = w.sent ++ (take size (w.memory b) ∷ []);
          }))
  write_fails :
      {w : World} (before after : List Op) (b : Block) (size n : ℕ)
      → w.pending ≡ before ++ (writing b size ∷ after)
      → Step w (
          act
            (handle_write true n)
            (record w { pending = before ++ after; failures = w.failures + 1 }))
  closes :
      {w : World} (before after : List Op)
      → w.pending ≡ before ++ (closing ∷ after)
      → Step w (record w { pending = before ++ after; session = close_socket w.session })
  stops : {w : World} → Step w (act stop w)
