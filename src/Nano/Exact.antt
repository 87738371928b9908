-- ===== src/Nano/Exact.antt =====
-- What nanotest counts in the vector that it makes.
use await.Base.{
  ℕ, zero, suc, ◌+◌, ◌/◌, ◌%◌, ◌<◌, ◌==◌, ltb, Bool, true, false, ◌&&◌, List, [], ◌∷◌, ◌≡◌, refl,
  ap, ap₂, ◌∙◌, sym, subst, length, total, to_ℕ, ℤ, pos, negsuc, arith,
}
use await.Naive.{hits}
use await.Naive.Loop.{◌!◌, found_count}
use await.Naive.Sorted.{IsSorted, Answers, hits-Answers}
use await.Nano.{doubles}

pub length-doubles : (i count : ℕ) → length (doubles i count) ≡ count
length-doubles i zero = refl
length-doubles i (suc count) = ap suc (length-doubles (suc i) count)

get-doubles : (i count j : ℕ) → j < count → doubles i count ! j ≡ pos ((i + j) + (i + j))
get-doubles i zero j h = absurd (omega arith)
get-doubles i (suc count) zero h = ap pos (omega arith)
get-doubles i (suc count) (suc j) h =
    get-doubles (suc i) count j (omega arith) ∙ ap pos (omega arith)

pub doubles-IsSorted : (count : ℕ) → IsSorted (doubles 0 count)
doubles-IsSorted count i j h k =
    ground (arith, get-doubles 0 count i, get-doubles 0 count j, length-doubles 0 count)

-- an even number from 0 to below `2 * count`
abbrev pub is_double : ℕ → ℤ → Bool
is_double count (pos n) = (n % 2 == 0) && ltb (n / 2) count
is_double count (negsuc n) = false

Answers→is_double :
    (count : ℕ) (key : ℤ) (b : Bool)
    → Answers (doubles 0 count) key 0 count b
    → b ≡ is_double count key
Answers→is_double count key true (i, lo, hi, e) =
    subst (λ k. true ≡ is_double count k) (sym (get-doubles 0 count i hi) ∙ e) (ground arith)
Answers→is_double count (negsuc n) false h = refl
Answers→is_double count (pos n) false h = ground (arith, h (n / 2), get-doubles 0 count (n / 2))

hits-doubles :
    (count : ℕ) (key : ℤ)
    → hits (doubles 0 count) key 0 (length (doubles 0 count)) ≡ is_double count key
hits-doubles count key = Answers→is_double count key _ (
    subst
      (λ n.
        Answers (doubles 0 count) key 0 n (hits (doubles 0 count) key 0 (length (doubles 0 count))))
      (omega (arith, length-doubles 0 count))
      (hits-Answers (doubles 0 count) key (doubles-IsSorted count) 0 (length (doubles 0 count))
        (omega arith)))

pub found_count-doubles :
    (count : ℕ) (keys : List ℤ)
    → found_count (doubles 0 count) keys ≡ total (λ key. to_ℕ (is_double count key)) keys
found_count-doubles count [] = refl
found_count-doubles count (key ∷ keys) =
    ap₂ ◌+◌ (ap to_ℕ (hits-doubles count key)) (found_count-doubles count keys)
