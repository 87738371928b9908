-- ===== src/Naive.antt =====
-- 2018_CppCon/src/naive.h: the binary search that the other two must agree with.
-- A pointer or iterator into the vector is its index; a read outside the vector is a `fault`.
-- The differences of `ptrdiff_t` are natural numbers: `len - half - 1` is computed at `0 < len` only.
pub mod Loop
pub mod Sorted
use await.Base.{
  ℕ, zero, suc, ◌+◌, ◌-◌, ◌/◌, Bool, true, false, none, some, List, ltb, if◌then◌else◌, get_elem?,
  ℤ, ltb_ℤ, eqb_ℤ, Outcome, done, fault, no_fuel, result_or,
}

module _ (v : List ℤ) (key : ℤ) where
  -- the `while`, with fuel
  unfoldable pub naive_loop : ℕ → ℕ → ℕ → Outcome Bool
  naive_loop zero first len = no_fuel
  naive_loop (suc fuel) first len =
      let half = len / 2 in
      let middle = first + half in
      elim (ltb 0 len) [
        | false ↦ done false
        | true ↦ elim (get_elem? v middle) [
          | none ↦ fault
          | some middle_key ↦
              let less = ltb_ℤ middle_key key in
              let rest =
                naive_loop fuel (if less then middle + 1 else first)
                  (if less then len - half - 1 else half) in
              if eqb_ℤ middle_key key then done true else rest
        ]
      ]

  unfoldable pub naive_binary_search : ℕ → ℕ → Outcome Bool
  unfolding naive_loop
  naive_binary_search first last = naive_loop (suc (last - first)) first (last - first)

  -- the answer of the search of `len` cells from `first` on
  unfoldable pub hits : ℕ → ℕ → Bool
  hits first len = result_or (naive_loop (suc len) first len) false
