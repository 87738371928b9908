-- ===== src/Base/Lists.antt =====
-- Lists measured and indexed by native numbers, under the library's names.
use Prim.Native.Nat.{ℕ, zero, suc, ◌+◌, ◌*◌, ◌≤◌, ◌<◌}
use mathlib.Core.Path.{◌≡◌, refl, ap}
use mathlib.Core.Logic.{◌≢◌}
use mathlib.Core.List.{List, [], ◌∷◌, ◌++◌}
use mathlib.Core.Option.{Option, none, some}
use native.Mathlib.Omega.{arith}

module _ {ℓ} {A : Type ℓ} where
  abbrev pub length : List A → ℕ
  length [] = 0
  length (x ∷ xs) = suc (length xs)

  abbrev pub get_elem? : List A → ℕ → Option A
  get_elem? [] i = none
  get_elem? (x ∷ xs) zero = some x
  get_elem? (x ∷ xs) (suc i) = get_elem? xs i

  abbrev pub get_or : List A → ℕ → A → A
  get_or [] i d = d
  get_or (x ∷ xs) zero d = x
  get_or (x ∷ xs) (suc i) d = get_or xs i d

  -- A write out of bounds changes nothing.
  abbrev pub set : List A → ℕ → A → List A
  set [] i v = []
  set (x ∷ xs) zero v = v ∷ xs
  set (x ∷ xs) (suc i) v = x ∷ set xs i v

  abbrev pub replicate : ℕ → A → List A
  replicate zero a = []
  replicate (suc n) a = a ∷ replicate n a

  pub nil_of_length : (xs : List A) → length xs ≡ 0 → xs ≡ []
  nil_of_length [] h = refl
  nil_of_length (x ∷ xs) h = absurd (omega (arith, h))

  pub length-append : (xs ys : List A) → length (xs ++ ys) ≡ length xs + length ys
  length-append [] ys = omega arith
  length-append (x ∷ xs) ys = omega (arith, length-append xs ys)

module _ {ℓ} {A : Type ℓ} where
  pub length-set : (xs : List A) (i : ℕ) (v : A) → length (set xs i v) ≡ length xs
  length-set [] i v = refl
  length-set (x ∷ xs) zero v = refl
  length-set (x ∷ xs) (suc i) v = ap suc (length-set xs i v)

  pub length-replicate : (n : ℕ) (a : A) → length (replicate n a) ≡ n
  length-replicate zero a = refl
  length-replicate (suc n) a = ap suc (length-replicate n a)

  pub get_elem?-eq-get_or :
      (xs : List A) (i : ℕ) (d : A) → i < length xs → get_elem? xs i ≡ some (get_or xs i d)
  get_elem?-eq-get_or [] i d h = absurd (omega arith)
  get_elem?-eq-get_or (x ∷ xs) zero d h = refl
  get_elem?-eq-get_or (x ∷ xs) (suc i) d h = get_elem?-eq-get_or xs i d (omega arith)

  pub get_or-set_self :
      (xs : List A) (i : ℕ) (v d : A) → i < length xs → get_or (set xs i v) i d ≡ v
  get_or-set_self [] i v d h = absurd (omega arith)
  get_or-set_self (x ∷ xs) zero v d h = refl
  get_or-set_self (x ∷ xs) (suc i) v d h = get_or-set_self xs i v d (omega arith)

  pub get_or-set_ne :
      (xs : List A) {i j : ℕ} (v d : A) → i ≢ j → get_or (set xs i v) j d ≡ get_or xs j d
  get_or-set_ne [] v d h = refl
  get_or-set_ne (x ∷ xs) {i = zero} {j = zero} v d h = absurd (h refl)
  get_or-set_ne (x ∷ xs) {i = zero} {j = suc j} v d h = refl
  get_or-set_ne (x ∷ xs) {i = suc i} {j = zero} v d h = refl
  get_or-set_ne (x ∷ xs) {i = suc i} {j = suc j} v d h = get_or-set_ne xs v d (λ e. h (ap suc e))

-- the sum of a measure over a list
module _ {ℓ} {A : Type ℓ} (w : A → ℕ) where
  abbrev pub total : List A → ℕ
  total [] = 0
  total (x ∷ xs) = w x + total xs

  pub total-set :
      (xs : List A) (i : ℕ) (x d : A)
      → i < length xs
      → total (set xs i x) + w (get_or xs i d) ≡ total xs + w x
  total-set [] i x d h = absurd (omega arith)
  total-set (y ∷ xs) zero x d h = omega arith
  total-set (y ∷ xs) (suc i) x d h = omega (arith, total-set xs i x d (omega arith))

  pub total-append : (xs ys : List A) → total (xs ++ ys) ≡ total xs + total ys
  total-append [] ys = omega arith
  total-append (x ∷ xs) ys = omega (arith, total-append xs ys)

-- To know every cell after a write, know the written one and the others.
pub get_or-set_all {ℓ} :
    {A : Type ℓ} (P : ℕ → A → Type 0) (xs : List A) (i : ℕ) (x d : A)
    → ((j : ℕ) → j < length xs → i ≢ j → P j (get_or xs j d))
    → P i x
    → (j : ℕ) → j < length (set xs i x)
    → P j (get_or (set xs i x) j d)
get_or-set_all P [] i x d others px j h = absurd (omega arith)
get_or-set_all P (y ∷ xs) zero x d others px zero h = px
get_or-set_all P (y ∷ xs) zero x d others px (suc j) h = others (suc j) h (omega arith)
get_or-set_all P (y ∷ xs) (suc i) x d others px zero h = others zero (omega arith) (omega arith)
get_or-set_all P (y ∷ xs) (suc i) x d others px (suc j) h =
    get_or-set_all (λ k. P (suc k)) xs i x d
      (λ k hk ne. others (suc k) (omega arith) (λ e. ne (omega arith))) px j (omega arith)

module _ {ℓ} {A : Type ℓ} (w : A → ℕ) where
  pub total-replicate : (n : ℕ) (x : A) → w x ≡ 0 → total w (replicate n x) ≡ 0
  total-replicate zero x h = refl
  total-replicate (suc n) x h = omega (arith, total-replicate n x h)

  pub total-le :
      (xs : List A) (m : ℕ) (d : A)
      → ((j : ℕ) → j < length xs → w (get_or xs j d) ≤ m)
      → total w xs ≤ length xs * m
  total-le [] m d h = omega arith
  total-le (x ∷ xs) m d h =
      grind (arith, total-le xs m d (λ j hj. h (suc j) (omega arith)), h 0 (omega arith))

pub get_or-replicate {ℓ} : {A : Type ℓ} (n j : ℕ) (x : A) → get_or (replicate n x) j x ≡ x
get_or-replicate zero j x = refl
get_or-replicate (suc n) zero x = refl
get_or-replicate (suc n) (suc j) x = get_or-replicate n j x
