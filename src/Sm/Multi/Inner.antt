-- ===== src/Sm/Multi/Inner.antt =====
-- The inner `for (;;)` of `SmMultiLookup`: it runs the frames in turn until one has its answer.
use await.Base.{
  ℕ, zero, suc, ◌+◌, ◌^◌, ◌<◌, Bool, true, false, List, ◌≡◌, length, get_or, set, length-set,
  get_or-set_all, get_elem?-eq-get_or, total, total-set, to_ℕ, if◌then◌else◌, ℤ, done, Returns,
  Returns_mono, arith, refl,
}
use await.Naive.{hits}
use await.Naive.Loop.{hits-zero}
use await.Sm.{Frame, blank, going, is_found, init, run}
use await.Sm.Run.{answer, IsReady, Runs, run-Runs, init-IsReady}
use await.Sm.Multi.{Lookups, turn, refill, run_until_free}

module _ (v : List ℤ) where
  -- what a frame will still add to `result`
  abbrev pub pending : Frame → ℕ
  pending fr = if going fr.state then to_ℕ (answer v fr) else 0

  abbrev pub AllReady : List Frame → Type 0
  AllReady frs = (j : ℕ) → j < length frs → IsReady v (get_or frs j blank)

  AllReady-set :
      (frs : List Frame) (i : ℕ) (fr : Frame)
      → AllReady frs
      → IsReady v fr
      → AllReady (set frs i fr)
  AllReady-set frs i fr all r = get_or-set_all (λ j. IsReady v) frs i fr blank (λ j h ne. all j h) r

  -- One lookup later: the vector of frames is as long, every frame is ready, and `result` with what
  -- is pending has grown by the answer for the new key.
  pub record Advances (key : ℤ) (s s' : Lookups) : Type 0 where
    pub size : length s'.frames ≡ length s.frames
    pub at : s'.i < length s'.frames
    pub ready : AllReady s'.frames
    pub tally :
        s'.result + total pending s'.frames
        ≡ s.result + total pending s.frames + to_ℕ (hits v key 0 (length v))

  module _ (small : length v < 2 ^ 64) where
    pub pending-init :
        (key : ℤ) (fr : Frame) → pending (init fr 0 (length v) key) ≡ to_ℕ (hits v key 0 (length v))
    unfolding init
    pending-init key fr = ground (arith, hits-zero v key 0)

    module _ (some_cell : 0 < length v) (n : ℕ) where
      init-IsReady_whole : (key : ℤ) (fr : Frame) → IsReady v (init fr 0 (length v) key)
      init-IsReady_whole key fr =
          (init-IsReady v small fr 0 (length v) key some_cell (omega arith)).0

      refill-Advances :
          (key : ℤ) (fr : Frame) (s s' : Lookups)
          → length s'.frames ≡ length s.frames
          → s'.i < length s'.frames
          → n < length s'.frames
          → AllReady s'.frames
          → s'.result + total pending s'.frames
            ≡ s.result + total pending s.frames + pending (get_or s'.frames s'.i blank)
          → Advances key s (refill v n key fr s')
      refill-Advances key fr s s' size at last all tally =
          let fresh = init fr 0 (length v) key in
          record {
            size = omega (arith, length-set s'.frames s'.i fresh);
            at = ground (arith, length-set s'.frames s'.i fresh);
            ready = AllReady-set s'.frames s'.i fresh all (init-IsReady_whole key fr);
            tally =
                omega (arith, total-set pending s'.frames s'.i fresh blank at, pending-init key fr);
          }

      same_tally :
          (key : ℤ) (s s' : Lookups)
          → length s'.frames ≡ length s.frames
          → s'.result + total pending s'.frames ≡ s.result + total pending s.frames
          → (s'' : Lookups) → Advances key s' s''
          → Advances key s s''
      same_tally key s s' size tally s'' a = record {
        size = omega arith;
        at = a.at;
        ready = a.ready;
        tally = omega arith;
      }

      -- what `run` did to the frame at `i`
      after_run :
          (fuel : ℕ) (key : ℤ) (s : Lookups)
          → s.i < length s.frames
          → n < length s.frames
          → AllReady s.frames
          → ((s' : Lookups)
              → total (λ fr. fr.len) s'.frames < fuel
              → s'.i < length s'.frames
              → n < length s'.frames
              → AllReady s'.frames
              → Returns (run_until_free v n fuel key s') (Advances key s'))
          → total (λ fr. fr.len) s.frames < suc fuel
          → (out : Bool × Frame) → run v (get_or s.frames s.i blank) ≡ done out
          → Runs v (get_or s.frames s.i blank) out
          → Returns (run_until_free v n (suc fuel) key s) (Advances key s)
      unfolding run_until_free
      after_run fuel key s at last all ih enough (true, fr') e runs =
          rw (get_elem?-eq-get_or s.frames s.i blank at, e, run_until_free)
            (refill-Advances key fr' s (record s { result = s.result + to_ℕ (is_found fr'.state) })
              refl at last all (ground (arith, all s.i at)))
      after_run fuel key s at last all ih enough (false, fr') e runs =
          rw (get_elem?-eq-get_or s.frames s.i blank at, e, run_until_free)
            (Returns_mono _ (same_tally key s s' size (ground (arith, all s.i at, weighed pending)))
              (ih s' (omega (arith, weighed (λ fr. fr.len), runs.2)) (ground (arith, size))
                (omega (arith, size)) (AllReady-set s.frames s.i fr' all runs.0)))
        where
          s' : Lookups
          s' = turn v n (record s { frames = set s.frames s.i fr' })

          size : length s'.frames ≡ length s.frames
          size = length-set s.frames s.i fr'

          weighed :
              (w : Frame → ℕ)
              → total w s'.frames + w (get_or s.frames s.i blank) ≡ total w s.frames + w fr'
          weighed w = total-set w s.frames s.i fr' blank at

      -- With every frame ready and more fuel than cells left to search, the loop ends: one lookup
      -- has its answer, and the frame is set up for the new key.
      pub run_until_free-Advances :
          (fuel : ℕ) (key : ℤ) (s : Lookups)
          → total (λ fr. fr.len) s.frames < fuel
          → s.i < length s.frames
          → n < length s.frames
          → AllReady s.frames
          → Returns (run_until_free v n fuel key s) (Advances key s)
      run_until_free-Advances zero key s enough at last all = absurd (omega arith)
      run_until_free-Advances (suc fuel) key s enough at last all =
          let (out, e, runs) = run-Runs v small (get_or s.frames s.i blank) (all s.i at) in
          after_run fuel key s at last all (run_until_free-Advances fuel key) enough out e runs
