-- ===== src/Sm/Single.antt =====
-- `sm_binary_search` and the search of naive.h.
use await.Base.{
  ℕ, zero, suc, ◌-◌, ◌^◌, ◌≤◌, ◌<◌, Bool, true, false, List, ◌≡◌, length, ℤ, Outcome, done, fault,
  no_fuel, arith, ◌∙◌, sym, ◌>>=◌, subst, dec_lt, ap,
}
use await.Naive.{hits, naive_binary_search}
use await.Naive.Sorted.{naive_binary_search-hits}
use await.Sm.{Frame, blank, is_found, init, run, sm_loop, sm_binary_search}
use await.Sm.Run.{answer, IsReady, settled, Runs, run-Runs, init-IsReady, init_of_empty}

-- The loop has left a frame with this answer.
abbrev Settles : Bool → Outcome Frame → Type 0
Settles b (done fr) = fr.state ≡ settled b
Settles b fault = ⊥
Settles b no_fuel = ⊥

module _ (v : List ℤ) (small : length v < 2 ^ 64) where
  loop_of_settled :
      (fuel : ℕ) (fr : Frame) (b : Bool)
      → 0 < fuel
      → fr.state ≡ settled b
      → Settles b (sm_loop v fuel fr)
  unfolding sm_loop
  loop_of_settled zero fr b p e = absurd (omega arith)
  loop_of_settled (suc fuel) fr true p e = ground arith
  loop_of_settled (suc fuel) fr false p e = ground arith

  after_run :
      (fuel : ℕ) (fr : Frame)
      → fr.len < suc fuel
      → IsReady v fr
      → ((fr' : Frame)
          → fr'.len < fuel
          → IsReady v fr'
          → Settles (answer v fr') (sm_loop v fuel fr'))
      → (out : Bool × Frame) → run v fr ≡ done out
      → Runs v fr out
      → Settles (answer v fr) (sm_loop v (suc fuel) fr)
  unfolding sm_loop
  after_run fuel fr p r ih (true, fr') e runs =
      ground (arith, loop_of_settled fuel fr' (answer v fr))
  after_run fuel fr p r ih (false, fr') e runs = ground (arith, ih fr')

  loop-Settles :
      (fuel : ℕ) (fr : Frame)
      → fr.len < fuel
      → IsReady v fr
      → Settles (answer v fr) (sm_loop v fuel fr)
  loop-Settles zero fr p r = absurd (omega arith)
  loop-Settles (suc fuel) fr p r =
      let (out, e, runs) = run-Runs v small fr r in
      after_run fuel fr p r (loop-Settles fuel) out e runs

  searched :
      (b : Bool) (r : Outcome Frame) → Settles b r → (r >>= λ fr. done (is_found fr.state)) ≡ done b
  searched true (done fr) h = rw h
  searched false (done fr) h = rw h
  searched b fault h = absurd h
  searched b no_fuel h = absurd h

  search-Settles :
      (first last : ℕ) (key : ℤ)
      → first ≤ last
      → last ≤ length v
      → Settles
          (hits v key first (last - first))
          (sm_loop v (suc (last - first)) (init blank first last key))
  search-Settles first last key ordered inside = elim (dec_lt first last) [
    | yes h ↦
        let (ready, same, len) = init-IsReady v small blank first last key h inside in
        subst (λ b. Settles b (sm_loop v (suc (last - first)) (init blank first last key))) same
          (loop-Settles (suc (last - first)) (init blank first last key) (omega arith) ready)
    | no h ↦
        let (ended, none_there) = init_of_empty v small blank first last key (omega arith) inside in
        loop_of_settled (suc (last - first)) (init blank first last key) _ (omega arith)
          (ended ∙ sym (ap settled none_there))
  ]

  -- On a range inside a vector of fewer than 2^64 cells, sorted or not, `sm_binary_search`
  -- returns what `naive_binary_search` returns.
  pub sm_binary_search-naive :
      (first last : ℕ) (key : ℤ)
      → first ≤ last
      → last ≤ length v
      → sm_binary_search v first last key ≡ naive_binary_search v key first last
  unfolding sm_binary_search
  sm_binary_search-naive first last key ordered inside =
      searched (hits v key first (last - first)) _ (search-Settles first last key ordered inside)
      ∙ sym (naive_binary_search-hits v key first last ordered inside)
