-- ===== src/Base/Bags.antt =====
-- Lists up to order, as what every weight of their items adds up to.
use Prim.Native.Nat.{ℕ, ◌+◌, ◌<◌}
use mathlib.Core.Path.{◌≡◌, refl, ap}
use mathlib.Core.List.{List, [], ◌∷◌, ◌++◌, map}
use mathlib.Core.Bool.{Bool, true}
use mathlib.Core.Logic.{inl, inr}
use await.Base.Tests.{to_ℕ, Bool-cases}
use mathlib.Core.Quot
use mathlib.Core.Quot.{Quot, Quot-set}
use native.Mathlib.Omega.{arith}
use await.Base.Lists.{total, total-append}
use await.Base.Blocks.{total_split}

abbrev pub SameItems : {A : Type 0} → List A → List A → Type 0
SameItems {A = A} xs ys = (f : A → ℕ) → total f xs ≡ total f ys

abbrev pub Bag : Type 0 → Type 0
Bag A = Quot (SameItems {A = A})

module _ {A : Type 0} where
  abbrev pub of_list : List A → Bag A
  of_list = Quot.mk

  unfoldable pub put : A → Bag A → Bag A
  put x = Quot.lift Quot-set (λ xs. of_list (x ∷ xs)) λ xs ys h. Quot.sound λ f. omega (arith, h f)

  -- what the items of a bag weigh
  unfoldable pub weight : (A → ℕ) → Bag A → ℕ
  weight f = Quot.lift (hlevel) (total f) λ xs ys h. h f

  pub weight_lem : (f : A → ℕ) (xs : List A) → weight f (of_list xs) ≡ total f xs
  unfolding weight
  weight_lem f xs = refl

  pub same_bag : {xs ys : List A} → of_list xs ≡ of_list ys → SameItems xs ys
  unfolding weight
  same_bag e f = ap (weight f) e

  pub weight-put : (f : A → ℕ) (x : A) (b : Bag A) → weight f (put x b) ≡ f x + weight f b
  unfolding weight put
  weight-put f x = Quot.ind (λ _. hlevel) (λ xs. refl)

  pub put_last : (x : A) (xs : List A) → of_list (xs ++ (x ∷ [])) ≡ put x (of_list xs)
  unfolding put
  put_last x xs = Quot.sound λ f. omega (arith, total-append f xs (x ∷ []))

  pub put_split :
      (x : A) (before after : List A)
      → of_list (before ++ (x ∷ after)) ≡ put x (of_list (before ++ after))
  unfolding put
  put_split x before after = Quot.sound λ f. omega (arith, total_split f before x after)

  pub put_injective : (x : A) (b c : Bag A) → put x b ≡ put x c → b ≡ c
  unfolding put
  put_injective x =
      Quot.ind (λ _. hlevel Quot-set)
        λ xs.
          Quot.ind (λ _. hlevel Quot-set)
            λ ys e. Quot.sound λ f. omega (arith, same_bag {xs = x ∷ xs} {ys = x ∷ ys} e f)

  -- An item that a test is true of stands somewhere in a list that has one.
  pub find_split :
      (test : A → Bool) (xs : List A)
      → 0 < total (λ x. to_ℕ (test x)) xs
      → (before : List A) × (x : A) × (after : List A) × (xs ≡ before ++ (x ∷ after))
        × (test x ≡ true)
  find_split test [] h = absurd (omega arith)
  find_split test (x ∷ xs) h = elim (Bool-cases (test x)) [
    | inl e ↦ ([], x, xs, refl, e)
    | inr e ↦
        (let (before, y, after, split, found) = find_split test xs (omega (arith, h, ap to_ℕ e)) in
          (x ∷ before, y, after, ap (λ l. x ∷ l) split, found))
  ]

pub total-map :
    {A B : Type 0} (f : B → ℕ) (g : A → B) (xs : List A)
    → total f (map g xs) ≡ total (λ x. f (g x)) xs
total-map f g [] = refl
total-map f g (x ∷ xs) = omega (arith, total-map f g xs)
