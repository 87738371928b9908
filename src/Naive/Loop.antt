-- ===== src/Naive/Loop.antt =====
-- The loop of naive.h, round by round.
use await.Base.{
  ℕ, zero, suc, ◌+◌, ◌-◌, ◌/◌, ◌≤◌, ◌<◌, true, false, List, [], ◌∷◌, to_ℕ, ◌≡◌, ◌∙◌, if◌then◌else◌,
  length, get_or, IsDone, IsDone→result_or, refl, get_elem?-eq-get_or, ℤ, pos, ltb_ℤ, eqb_ℤ, done,
  arith,
}
use await.Naive.{naive_loop, hits}

-- a total read for statements; every use stands under a bound on the index
infixl 90 ◌!◌
abbrev pub ◌!◌ : List ℤ → ℕ → ℤ
v ! i = get_or v i (pos 0)

module _ (v : List ℤ) (key : ℤ) where
  loop_fuel :
      (f g first len : ℕ)
      → len < f
      → len < g
      → naive_loop v key f first len ≡ naive_loop v key g first len
  unfolding naive_loop
  loop_fuel zero g first len p q = absurd (omega arith)
  loop_fuel (suc f) zero first len p q = absurd (omega arith)
  loop_fuel (suc f) (suc g) first len p q = ground (
    arith,
    loop_fuel f g (first + len / 2 + 1) (len - len / 2 - 1),
    loop_fuel f g first (len / 2),
  )

  loop-IsDone :
      (f first len : ℕ) → len < f → first + len ≤ length v → IsDone (naive_loop v key f first len)
  unfolding naive_loop
  loop-IsDone zero first len p h = absurd (omega arith)
  loop-IsDone (suc f) first len p h = ground (
    arith,
    get_elem?-eq-get_or v (first + len / 2) (pos 0),
    loop-IsDone f (first + len / 2 + 1) (len - len / 2 - 1),
    loop-IsDone f first (len / 2),
  )

  -- With more fuel than cells, and the cells in the vector, the loop returns `hits`.
  pub loop-hits :
      (f first len : ℕ)
      → len < f
      → first + len ≤ length v
      → naive_loop v key f first len ≡ done (hits v key first len)
  unfolding hits
  loop-hits f first len p h =
      loop_fuel f (suc len) first len p (omega arith)
      ∙ IsDone→result_or _ false (loop-IsDone (suc len) first len (omega arith) h)

  pub hits-zero : (first : ℕ) → hits v key first 0 ≡ false
  unfolding hits naive_loop
  hits-zero first = refl

  -- One round: the answer is that of the half that is kept, unless the middle cell is the key.
  pub hits_round :
      (first len : ℕ)
      → 0 < len
      → first + len ≤ length v
      → let x = v ! (first + len / 2) in
        hits v key first len ≡ (
          if eqb_ℤ x key
          then true
          else if ltb_ℤ x key
          then hits v key (first + len / 2 + 1) (len - len / 2 - 1)
          else hits v key first (len / 2))
  unfolding naive_loop
  hits_round first len p h = ground (
    arith,
    get_elem?-eq-get_or v (first + len / 2) (pos 0),
    loop-hits (suc len) first len,
    loop-hits len (first + len / 2 + 1) (len - len / 2 - 1),
    loop-hits len first (len / 2),
  )

-- how many of the keys the search of naive.h finds in the vector
abbrev pub found_count : List ℤ → List ℤ → ℕ
found_count v [] = 0
found_count v (key ∷ keys) = to_ℕ (hits v key 0 (length v)) + found_count v keys
