-- ===== src/Naive/Sorted.antt =====
-- What the answer of naive.h says about the cells that it searches.
use await.Base.{
  ℕ, zero, suc, ◌+◌, ◌-◌, ◌/◌, ◌≤◌, ◌<◌, Bool, true, false, List, ◌≡◌, ◌≢◌, inl, inr, refl, length,
  Bool-cases, ℤ, ◌≤ℤ◌, eqb_ℤ, eqb_ℤ→eq, eqb_ℤ_self, ltb_ℤ, done, arith, subst,
}
use await.Naive.{naive_binary_search, hits}
use await.Naive.Loop.{◌!◌, loop-hits, hits-zero, hits_round}

abbrev pub IsSorted : List ℤ → Type 0
IsSorted v = (i j : ℕ) → i ≤ j → j < length v → v ! i ≤ℤ v ! j

-- `true` names a cell of [first, last) that holds the key; `false` says that none does.
abbrev pub Answers : List ℤ → ℤ → ℕ → ℕ → Bool → Type 0
Answers v key first last true = (i : ℕ) × (first ≤ i) × (i < last) × (v ! i ≡ key)
Answers v key first last false = (i : ℕ) → first ≤ i → i < last → v ! i ≢ key

module _ (v : List ℤ) (key : ℤ) where
  hits_sound :
      (f first len : ℕ)
      → len < f
      → first + len ≤ length v
      → hits v key first len ≡ true
      → (i : ℕ) × (first ≤ i) × (i < first + len) × (v ! i ≡ key)
  hits_sound zero first len p h e = absurd (omega arith)
  hits_sound (suc f) first zero p h e = ground (arith, hits-zero v key first)
  hits_sound (suc f) first (suc n) p h e = elim (Bool-cases (eqb_ℤ (v ! (first + suc n / 2)) key)) [
    | inl eq ↦ (first + suc n / 2, omega arith, omega arith, eqb_ℤ→eq _ key eq)
    | inr ne ↦ elim (Bool-cases (ltb_ℤ (v ! (first + suc n / 2)) key)) [
      | inl less ↦
          let (i, lo, hi, eq) =
            hits_sound f (first + suc n / 2 + 1) (suc n - suc n / 2 - 1) (omega arith) (omega arith)
              (ground (arith, hits_round v key first (suc n))) in
          (i, omega arith, omega arith, eq)
      | inr more ↦
          let (i, lo, hi, eq) =
            hits_sound f first (suc n / 2) (omega arith) (omega arith)
              (ground (arith, hits_round v key first (suc n))) in
          (i, omega arith, omega arith, eq)
    ]
  ]

  hits_complete :
      IsSorted v
      → (f first len i : ℕ) → len < f
      → first + len ≤ length v
      → hits v key first len ≡ false
      → first ≤ i
      → i < first + len
      → v ! i ≢ key
  hits_complete sorted zero first len i p h e lo hi eq = absurd (omega arith)
  hits_complete sorted (suc f) first len i p h e lo hi eq = ground (
    arith,
    hits_round v key first len,
    sorted i (first + len / 2),
    sorted (first + len / 2) i,
    eqb_ℤ_self key,
    hits_complete sorted f (first + len / 2 + 1) (len - len / 2 - 1) i,
    hits_complete sorted f first (len / 2) i,
  )

  pub hits-Answers :
      IsSorted v
      → (first len : ℕ) → first + len ≤ length v
      → Answers v key first (first + len) (hits v key first len)
  hits-Answers sorted first len h =
      (elim (hits v key first len)
          as (λ b. hits v key first len ≡ b → Answers v key first (first + len) b) [
            | true ↦ hits_sound (suc len) first len (omega arith) h
            | false ↦ λ e i. hits_complete sorted (suc len) first len i (omega arith) h e
          ])
        refl

  module _ (first last : ℕ) (ordered : first ≤ last) (inside : last ≤ length v) where
    -- For a range inside the vector, `naive_binary_search` returns what `hits` is.
    pub naive_binary_search-hits :
        naive_binary_search v key first last ≡ done (hits v key first (last - first))
    unfolding naive_binary_search
    naive_binary_search-hits =
        loop-hits v key (suc (last - first)) first (last - first) (omega arith) (omega arith)

    pub naive_binary_search_sound :
        (b : Bool) × (naive_binary_search v key first last ≡ done b)
        × (b ≡ true → (i : ℕ) × (first ≤ i) × (i < last) × (v ! i ≡ key))
    naive_binary_search_sound = (
      hits v key first (last - first),
      naive_binary_search-hits,
      λ e.
          let (i, lo, hi, eq) =
            hits_sound (suc (last - first)) first (last - first) (omega arith) (omega arith) e in
          (i, lo, omega arith, eq),
    )

    -- For a range inside a sorted vector, `naive_binary_search` returns, with no read outside the
    -- vector: `true` where a cell of the range holds the key, and `false` where none does.
    pub naive_binary_search-Answers :
        IsSorted v
        → (b : Bool) × (naive_binary_search v key first last ≡ done b) × Answers v key first last b
    naive_binary_search-Answers sorted = (
      hits v key first (last - first),
      naive_binary_search-hits,
      subst (λ n. Answers v key first n (hits v key first (last - first))) range
          (hits-Answers sorted first (last - first) (omega arith)),
    )
      where
        range : first + (last - first) ≡ last
        range = omega arith
