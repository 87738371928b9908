-- ===== src/Client/Echo.antt =====
-- What the session of myclient.cpp sends, and which operations it has under way.
use await.Base.{
  ℕ, ◌+◌, ◌*◌, ◌%◌, ◌^◌, ◌≤◌, ◌<◌, ◌≡◌, List, ◌∷◌, ◌++◌, length, length-append, total, Every,
  Every-mono, arith,
}
use await.Client.{Block, Op, connecting, reading, writing, closing, Session, World, pattern_from}
use await.Client.Valid.{is_connect, is_read, is_write, volume, Fits, Apart, Ledger}
use await.Client.Runs.{Reach, Reach-IsValid}

-- `owed` are the blocks that are still to be sent: the ones under way or waiting.
pub record Echoes (size : ℕ) (w : World) : Type 0 where
  pub owed : List (List ℕ)
  pub few_owed : length owed ≤ 2
  pub stream : pattern_from size 0 ∷ w.received ≡ w.sent ++ owed
  pub written : w.session.bytes_written ≡ volume w.sent % 2 ^ 64
  pub read : w.session.bytes_read ≡ volume w.received % 2 ^ 64

-- an operation that stays inside the array that the session lends it
pub InBounds : Session → (Block → List ℕ) → Op → Type 0
InBounds s memory connecting = Unit
InBounds s memory (reading b n) = (b ≡ s.read_data) × (n ≡ length (memory b))
InBounds s memory (writing b n) = (b ≡ s.write_data) × (0 < n) × (n ≤ length (memory b))
InBounds s memory closing = Unit

pub record OneEach (w : World) : Type 0 where
  pub one_read : total is_read w.pending ≤ 1
  pub one_write : total is_write w.pending ≤ 1
  pub connects_first :
      2 * total is_connect w.pending + total is_read w.pending + total is_write w.pending ≤ 2
  pub busy :
      1
      ≤ total is_connect w.pending + total is_read w.pending + total is_write w.pending + w.failures
  pub apart : Apart w.session.read_data w.session.write_data
  pub in_bounds : Every (InBounds w.session w.memory) w.pending

module _ {size : ℕ} {w : World} where
  bounded :
      (l : Ledger size w) (op : Op)
      → Fits w.session w.memory l.in_flight op
      → InBounds w.session w.memory op
  unfolding InBounds
  bounded l connecting fits = tt
  bounded l (reading b n) fits = (fits.0, omega (arith, fits.1, l.block_size, l.lengths b))
  bounded l (writing b n) (target, positive, bound, flies) =
      (target, positive, omega (arith, bound, l.block_size, l.lengths b))
  bounded l closing fits = tt

module _ {size : ℕ} {junk : List ℕ} {w : World} where
  -- In every run of a session of myclient.cpp with a block size above 0, whatever its read array
  -- of that size holds at first, the blocks that have been sent, followed by at most two more,
  -- are the first block followed by the blocks that have been read, and the two counters hold the
  -- numbers of bytes sent and read, modulo 2^64.
  pub session-Echoes : 0 < size → length junk ≡ size → Reach size junk w → Echoes size w
  session-Echoes some_size whole r =
      let l = (Reach-IsValid some_size whole r).ledger in
      record {
        owed = l.in_flight ++ l.held;
        few_owed = omega (
          arith,
          length-append l.in_flight l.held,
          l.number_in_flight,
          l.number_held,
          l.read_side,
          l.write_side,
        );
        stream = l.stream;
        written = l.written;
        read = l.read;
      }

  pub session-OneEach : 0 < size → length junk ≡ size → Reach size junk w → OneEach w
  session-OneEach some_size whole r =
      let v = Reach-IsValid some_size whole r in
      let l = v.ledger in
      record {
        one_read = omega (arith, l.read_side);
        one_write = omega (arith, l.write_side);
        connects_first = omega (arith, l.connect_side, l.read_side, l.write_side);
        busy = omega (arith, l.read_side, l.write_side, v.not_both, l.failing);
        apart = l.apart;
        in_bounds = Every-mono _ _ (bounded l) w.pending l.fits;
      }
