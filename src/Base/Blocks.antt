-- ===== src/Base/Blocks.antt =====
-- A predicate on every element of a list, prefixes, and writes at the front of a block of bytes.
use Prim.Native.Nat.{ℕ, zero, suc, ◌+◌, ◌≤◌}
use mathlib.Core.Path.{◌≡◌, refl, ap}
use mathlib.Core.List.{List, [], ◌∷◌, ◌++◌}
use native.Mathlib.Omega.{arith}
use await.Base.Lists.{length, total}

module _ {ℓ} {A : Type ℓ} where
  abbrev pub Every : (A → Type 0) → List A → Type 0
  Every P [] = Unit
  Every P (x ∷ xs) = P x × Every P xs

  pub Every-mono :
      (P Q : A → Type 0) → ((x : A) → P x → Q x) → (xs : List A) → Every P xs → Every Q xs
  Every-mono P Q f [] h = tt
  Every-mono P Q f (x ∷ xs) h = (f x h.0, Every-mono P Q f xs h.1)

  pub Every-append :
      (P : A → Type 0) (xs ys : List A) → Every P xs → Every P ys → Every P (xs ++ ys)
  Every-append P [] ys h k = k
  Every-append P (x ∷ xs) ys h k = (h.0, Every-append P xs ys h.1 k)

  -- What holds of every element holds of the one in the middle, and of the others.
  pub Every-split :
      (P : A → Type 0) (xs : List A) (y : A) (ys : List A)
      → Every P (xs ++ (y ∷ ys))
      → P y × Every P (xs ++ ys)
  Every-split P [] y ys h = h
  Every-split P (x ∷ xs) y ys h = let (py, rest) = Every-split P xs y ys h.1 in (py, (h.0, rest))

  pub Every-replace :
      (P : A → Type 0) (xs : List A) (y y' : A) (ys : List A)
      → Every P (xs ++ (y ∷ ys))
      → (P y → P y')
      → Every P (xs ++ (y' ∷ ys))
  Every-replace P [] y y' ys h f = (f h.0, h.1)
  Every-replace P (x ∷ xs) y y' ys h f = (h.0, Every-replace P xs y y' ys h.1 f)

  pub total_split :
      (w : A → ℕ) (xs : List A) (y : A) (ys : List A)
      → total w (xs ++ (y ∷ ys)) ≡ w y + total w (xs ++ ys)
  total_split w [] y ys = refl
  total_split w (x ∷ xs) y ys = omega (arith, total_split w xs y ys)

  -- A measure that adds up to 0 is 0 on every element.
  pub Every-zero :
      (P : A → Type 0) (w : A → ℕ) (xs : List A)
      → total w xs ≡ 0
      → Every P xs
      → Every (λ x. P x × (w x ≡ 0)) xs
  Every-zero P w [] h k = tt
  Every-zero P w (x ∷ xs) h k = ((k.0, omega (arith, h)), Every-zero P w xs (omega (arith, h)) k.1)

  abbrev pub take : ℕ → List A → List A
  take zero xs = []
  take (suc n) [] = []
  take (suc n) (x ∷ xs) = x ∷ take n xs

  -- the block after a write at its front; what does not fit is dropped
  abbrev pub overwrite : List A → List A → List A
  overwrite [] ys = ys
  overwrite (x ∷ xs) [] = []
  overwrite (x ∷ xs) (y ∷ ys) = x ∷ overwrite xs ys

module _ {ℓ} {A : Type ℓ} where
  pub take-length : (xs : List A) → take (length xs) xs ≡ xs
  take-length [] = refl
  take-length (x ∷ xs) = ap (λ l. x ∷ l) (take-length xs)

  pub length-take : (n : ℕ) (xs : List A) → n ≤ length xs → length (take n xs) ≡ n
  length-take zero xs h = refl
  length-take (suc n) [] h = absurd (omega arith)
  length-take (suc n) (x ∷ xs) h = ap suc (length-take n xs (omega arith))

  pub length-overwrite : (xs ys : List A) → length (overwrite xs ys) ≡ length ys
  length-overwrite [] ys = refl
  length-overwrite (x ∷ xs) [] = refl
  length-overwrite (x ∷ xs) (y ∷ ys) = ap suc (length-overwrite xs ys)

  pub take-overwrite :
      (xs ys : List A) → length xs ≤ length ys → take (length xs) (overwrite xs ys) ≡ xs
  take-overwrite [] ys h = refl
  take-overwrite (x ∷ xs) [] h = absurd (omega arith)
  take-overwrite (x ∷ xs) (y ∷ ys) h = ap (λ l. x ∷ l) (take-overwrite xs ys (omega arith))
