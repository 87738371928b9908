-- ===== src/Sm/Run.antt =====
-- What `Frame::init` sets up and what one `Frame::run` does, in terms of the search of naive.h.
use await.Base.{
  ℕ, ◌+◌, ◌-◌, ◌/◌, ◌^◌, ◌≤◌, ◌<◌, Bool, true, false, List, ◌≡◌, get_elem?-eq-get_or, length, ℤ,
  pos, done, arith,
}
use await.Naive.{hits}
use await.Naive.Loop.{◌!◌, hits_round, hits-zero}
use await.Sm.{State, keep_going, found, not_found, Frame, init, probe, run}

-- the state in which a frame with this answer ends
abbrev pub settled : Bool → State
settled true = found
settled false = not_found

module _ (v : List ℤ) where
  -- the answer that a frame is on its way to
  abbrev pub answer : Frame → Bool
  answer fr = hits v fr.val fr.first fr.len

  -- A frame that may be run: it stands before the probe of the middle of a range in the vector.
  pub record IsReady (fr : Frame) : Type 0 where
    pub going : fr.state ≡ keep_going
    pub some_left : 0 < fr.len
    pub halved : fr.half ≡ fr.len / 2
    pub at_middle : fr.middle ≡ fr.first + fr.half
    pub inside : fr.first + fr.len ≤ length v

  -- What `run` promises of a frame that is ready. If it returns `true` the answer is in the state;
  -- if it returns `false` the frame is ready again, with the same answer and a shorter range.
  abbrev pub Runs : Frame → Bool × Frame → Type 0
  Runs fr (true, fr') = fr'.state ≡ settled (answer fr)
  Runs fr (false, fr') = IsReady fr' × (answer fr' ≡ answer fr) × (fr'.len < fr.len)

  module _ (small : length v < 2 ^ 64) where
    probe-Runs : (fr : Frame) → IsReady fr → Runs fr (probe (v ! fr.middle) fr)
    unfolding probe
    probe-Runs fr r = ground (
      arith,
      hits_round v fr.val fr.first fr.len,
      hits-zero v fr.val fr.first,
      hits-zero v fr.val (fr.first + fr.len / 2 + 1),
    )

    pub run-Runs :
        (fr : Frame) → IsReady fr → (out : Bool × Frame) × (run v fr ≡ done out) × Runs fr out
    unfolding run
    run-Runs fr r = (
      probe (v ! fr.middle) fr,
      rw (get_elem?-eq-get_or v fr.middle (pos 0) (omega arith), run),
      probe-Runs fr r,
    )

    -- `init` on a range of the vector: a frame that is ready, or `not_found` on the empty range.
    pub init-IsReady :
        (fr : Frame) (first last : ℕ) (key : ℤ)
        → first < last
        → last ≤ length v
        → IsReady (init fr first last key)
          × (answer (init fr first last key) ≡ hits v key first (last - first))
          × ((init fr first last key).len ≡ last - first)
    unfolding init
    init-IsReady fr first last key h inside = ground arith

    pub init_of_empty :
        (fr : Frame) (first last : ℕ) (key : ℤ)
        → first ≡ last
        → last ≤ length v
        → ((init fr first last key).state ≡ not_found) × (hits v key first (last - first) ≡ false)
    unfolding init
    init_of_empty fr first last key e inside = ground (arith, hits-zero v key first)
