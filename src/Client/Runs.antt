-- ===== src/Client/Runs.antt =====
-- The session keeps its protocol on every step of every run.
use await.Base.{
  ℕ, zero, suc, ◌+◌, ◌<◌, ◌≡◌, refl, ap, sym, subst, true, false, List, [], ◌∷◌, ◌++◌, length, take,
  take-length, arith,
}
use await.Client.{
  Block, one, two, connecting, reading, writing, closing, World, handle_read, handle_write,
  handle_connect, Step, connects, reads, read_fails, writes, write_fails, closes, stops,
  pattern_from, started, new_session,
}
use await.Client.Valid.{IsValid}
use await.Client.Swap.{complete}
use await.Client.Steps.{read-IsValid, write-IsValid}
use await.Client.Failures.{fail-IsValid, connected-IsValid, close-IsValid, stop-IsValid}

Step-IsValid : {size : ℕ} {w w' : World} → IsValid size w → Step w w' → IsValid size w'
unfolding handle_connect handle_read handle_write
Step-IsValid v (connects before after true opt e) =
    fail-IsValid v connecting (before ++ after) (complete v.ledger before after connecting e)
Step-IsValid v (connects before after false true e) =
    fail-IsValid v connecting (before ++ after) (complete v.ledger before after connecting e)
Step-IsValid v (connects before after false false e) =
    connected-IsValid v.ledger (before ++ after) (complete v.ledger before after connecting e)
Step-IsValid v (reads before after b n bytes e some_bytes bound) =
    read-IsValid v before after b n bytes e some_bytes bound
Step-IsValid v (read_fails before after b n k e) =
    fail-IsValid v (reading b n) (before ++ after) (complete v.ledger before after (reading b n) e)
Step-IsValid v (writes before after b n e) = write-IsValid v before after b n e
Step-IsValid v (write_fails before after b n k e) =
    fail-IsValid v (writing b n) (before ++ after) (complete v.ledger before after (writing b n) e)
Step-IsValid v (closes before after e) =
    close-IsValid v (before ++ after) (complete v.ledger before after closing e)
Step-IsValid v stops = stop-IsValid v

-- a session from its start on
pub data Reach (size : ℕ) (junk : List ℕ) : World → Type 0 where
  begins : Reach size junk (started size junk)
  goes : {w w' : World} → Reach size junk w → Step w w' → Reach size junk w'

pub length-pattern : (n i : ℕ) → length (pattern_from n i) ≡ n
length-pattern zero i = refl
length-pattern (suc n) i = ap suc (length-pattern n (i + 1))

whole_pattern : (n : ℕ) → take n (pattern_from n 0) ≡ pattern_from n 0
whole_pattern n =
    subst (λ k. take k (pattern_from n 0) ≡ pattern_from n 0) (length-pattern n 0)
      (take-length (pattern_from n 0))

started_lengths :
    (size : ℕ) (junk : List ℕ)
    → length junk ≡ size
    → (b : Block) → length ((started size junk).memory b) ≡ size
unfolding started new_session
started_lengths size junk whole one = whole
started_lengths size junk whole two = length-pattern size 0

started-IsValid :
    (size : ℕ) (junk : List ℕ) → 0 < size → length junk ≡ size → IsValid size (started size junk)
unfolding started new_session
started-IsValid size junk some_size whole = record {
  ledger = record {
    some_size = some_size;
    unconnected = 1;
    read_failed = 0;
    waiting = 0;
    write_failed = 0;
    idle = 0;
    in_flight = pattern_from size 0 ∷ [];
    held = [];
    read_side = refl;
    write_side = refl;
    connect_side = omega arith;
    count = refl;
    failing = omega arith;
    block_size = refl;
    lengths = started_lengths size junk whole;
    apart = tt;
    fits = (ap (λ l. l ∷ []) (sym (whole_pattern size)), tt);
    number_in_flight = refl;
    number_held = refl;
    holds = λ h. absurd (omega (arith, h));
    stream = refl;
    written = refl;
    read = refl;
  };
  not_both = omega arith;
}

pub Reach-IsValid :
    {size : ℕ} {junk : List ℕ} {w : World}
    → 0 < size
    → length junk ≡ size
    → Reach size junk w
    → IsValid size w
Reach-IsValid some_size whole begins = started-IsValid _ _ some_size whole
Reach-IsValid some_size whole (goes r s) = Step-IsValid (Reach-IsValid some_size whole r) s
