-- ===== src/Gen/Yields.antt =====
-- What the generator of gen.cpp gives.
use await.Base.{
  ℕ, zero, suc, ◌+◌, ◌*◌, ◌^◌, ◌≤◌, ◌<◌, ◌≡◌, refl, ap, sym, ◌∙◌, false, Bool-cases, inl, inr, List,
  [], ◌∷◌, ltb, ltb→lt, lt→ltb, get_elem?, if◌then◌else◌, none, some, Returns, Returns->>=, arith,
}
use native.Mathlib.Nat.{pow-suc, mul_comm, mul_assoc, one-le-pow, le-mul_of_pos_right}
use await.Gen.{
  at_yield, at_final, Frame, f, loop_test, resume, is_done, Iterator, next, begin, for_loop,
  print_all,
}

-- The list of `i` and its doubles below `n`.
pub Doubles : ℕ → ℕ → List ℕ → Type 0
Doubles i n l = (k : ℕ) → get_elem? l k ≡ (if ltb (i * 2 ^ k) n then some (i * 2 ^ k) else none)

-- an iterator whose coroutine has just run the test of its loop
abbrev at_test : Frame → Iterator
at_test fr = record { coro = loop_test fr; is_end = is_done (loop_test fr).point }

not_ltb : (m n : ℕ) → n ≤ m → ltb m n ≡ false
not_ltb m n h = ground arith

le_of_not_ltb : (m n : ℕ) → ltb m n ≡ false → n ≤ m
le_of_not_ltb m n h = ground arith

nil-Doubles : (i n : ℕ) → n ≤ i → Doubles i n []
unfolding Doubles
nil-Doubles i n over k =
    let more : i ≤ i * 2 ^ k = le-mul_of_pos_right i (one-le-pow k 2 (omega arith)) in
    rw (not_ltb (i * 2 ^ k) n (omega (arith, over, more))) refl

cons-Doubles : (i n : ℕ) (l : List ℕ) → i < n → Doubles (i * 2) n l → Doubles i n (i ∷ l)
unfolding Doubles
cons-Doubles i n l less h zero =
    let same : i * 2 ^ 0 ≡ i = omega arith in rw (same, lt→ltb i n less) refl
cons-Doubles i n l less h (suc k) =
    let same : i * 2 ^ suc k ≡ i * 2 * 2 ^ k =
      ap (λ p. i * p) (pow-suc 2 k ∙ mul_comm (2 ^ k) 2) ∙ sym (mul_assoc i 2 (2 ^ k)) in
    rw same (h k)

for_loop-Doubles :
    (fuel : ℕ) (fr : Frame)
    → 0 < fr.i
    → 0 < fuel
    → fr.n < fr.i + fuel
    → Returns (for_loop fuel (at_test fr)) (λ r. Doubles fr.i fr.n r.0 × (r.1.point ≡ at_final))
unfolding for_loop next resume
for_loop-Doubles zero fr some_i some_fuel enough = absurd (omega arith)
for_loop-Doubles (suc fuel) fr some_i some_fuel enough =
    elim (Bool-cases (ltb fr.i fr.n))
      as (λ _.
        Returns (for_loop (suc fuel) (at_test fr))
          (λ r. Doubles fr.i fr.n r.0 × (r.1.point ≡ at_final))) [
            | inl e ↦
                let less : fr.i < fr.n = ltb→lt fr.i fr.n e in
                let fr' : Frame = record {
                  point = at_yield;
                  n = fr.n;
                  i = fr.i * 2;
                  current_value = fr.i;
                } in
                let rest =
                  for_loop-Doubles fuel fr' (omega (arith, some_i)) (omega (arith, less, enough))
                    (omega (arith, some_i, enough)) in
                rw e (
                  Returns->>= _ (for_loop fuel (at_test fr')) _ rest
                    (λ r h. (cons-Doubles fr.i fr.n r.0 less h.0, h.1)))
            | inr e ↦ rw e (nil-Doubles fr.i fr.n (le_of_not_ltb fr.i fr.n e), refl)
          ]

pub print_all-Doubles :
    (fuel n : ℕ)
    → n < fuel
    → Returns (print_all fuel n) (λ r. Doubles 3 n r.0 × (r.1.point ≡ at_final))
unfolding print_all begin resume
print_all-Doubles fuel n enough =
    for_loop-Doubles fuel (f n) (omega arith) (omega (arith, enough)) (omega (arith, enough))
