-- ===== src/Client/Valid.antt =====
-- The protocol of the session: what may be under way, in which array, and the bytes in its charge.
use await.Base.{ℕ, ◌+◌, ◌%◌, ◌^◌, ◌≤◌, ◌<◌, ◌≡◌, List, [], ◌∷◌, ◌++◌, length, total, Every, take}
use await.Client.{
  Block, one, two, Op, connecting, reading, writing, closing, Session, World, pattern_from,
}

abbrev pub is_connect : Op → ℕ
is_connect connecting = 1
is_connect (reading b n) = 0
is_connect (writing b n) = 0
is_connect closing = 0

abbrev pub is_read : Op → ℕ
is_read connecting = 0
is_read (reading b n) = 1
is_read (writing b n) = 0
is_read closing = 0

abbrev pub is_write : Op → ℕ
is_write connecting = 0
is_write (reading b n) = 0
is_write (writing b n) = 1
is_write closing = 0

-- the number of bytes of some blocks
abbrev pub volume : List (List ℕ) → ℕ
volume = total length

-- What is asked of each operation: a read fills the whole read array, a write sends the bytes that
-- `in_flight` names, from the write array.
abbrev pub Fits : Session → (Block → List ℕ) → List (List ℕ) → Op → Type 0
Fits s memory in_flight connecting = in_flight ≡ take s.block_size (memory s.write_data) ∷ []
Fits s memory in_flight (reading b n) = (b ≡ s.read_data) × (n ≡ s.block_size)
Fits s memory in_flight (writing b n) =
    (b ≡ s.write_data) × (0 < n) × (n ≤ s.block_size) × (in_flight ≡ take n (memory b) ∷ [])
Fits s memory in_flight closing = Unit

-- The two pointers never meet.
abbrev pub Apart : Block → Block → Type 0
Apart one one = ⊥
Apart one two = Unit
Apart two one = Unit
Apart two two = ⊥

-- The last block that was read, which waits in the read array.
abbrev pub Held : World → List (List ℕ) → Type 0
Held w held =
    let s = w.session in
    (0 < s.read_data_length)
    × (s.read_data_length ≤ s.block_size)
    × (held ≡ take s.read_data_length (w.memory s.read_data) ∷ [])

-- The state of each side is a count: reads under way, failed, or waiting for the write, and writes
-- under way, failed, or idle.
pub record Ledger (size : ℕ) (w : World) : Type 0 where
  pub some_size : 0 < size
  pub unconnected : ℕ
  pub read_failed : ℕ
  pub waiting : ℕ
  pub write_failed : ℕ
  pub idle : ℕ
  pub in_flight : List (List ℕ)
  pub held : List (List ℕ)
  pub read_side : total is_read w.pending + read_failed + waiting + unconnected ≡ 1
  pub write_side : total is_write w.pending + write_failed + idle + unconnected ≡ 1
  pub connect_side : total is_connect w.pending ≤ unconnected
  pub count : w.session.unwritten_count ≡ total is_write w.pending + write_failed + waiting
  pub failing : read_failed + write_failed + unconnected ≤ w.failures + total is_connect w.pending
  pub block_size : w.session.block_size ≡ size
  pub lengths : (b : Block) → length (w.memory b) ≡ size
  pub apart : Apart w.session.read_data w.session.write_data
  pub fits : Every (Fits w.session w.memory in_flight) w.pending
  pub number_in_flight : length in_flight ≡ total is_write w.pending + write_failed + unconnected
  pub number_held : length held ≡ waiting
  pub holds : 0 < waiting → Held w held
  pub stream : pattern_from size 0 ∷ w.received ≡ w.sent ++ (in_flight ++ held)
  pub written : w.session.bytes_written ≡ volume w.sent % 2 ^ 64
  pub read : w.session.bytes_read ≡ volume w.received % 2 ^ 64

-- Between the handlers: a block that waits and an idle write side do not stay so together.
pub record IsValid (size : ℕ) (w : World) : Type 0 where
  pub ledger : Ledger size w
  pub not_both : ledger.waiting + ledger.idle ≤ 1
