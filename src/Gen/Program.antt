-- ===== src/Gen/Program.antt =====
-- The whole program of gen.cpp: what it prints, and what is left in its memory.
use await.Base.{
  ℕ, zero, suc, ◌<◌, ◌≡◌, refl, ap, sym, subst, ◌∙◌, Bool, true, false, List, [], ◌∷◌, ◌++◌, map,
  some, Outcome, done, fault, no_fuel, ◌>>=◌, Returns, Returns->>=,
}
use mathlib.Core.List.{append_assoc, append-nil}
use await.Gen.{Frame, f, resume, is_done, next, begin, for_loop, print_all}
use await.Gen.Yields.{Doubles, print_all-Doubles}
use await.Gen.Memory.{
  Line, alloc, delete, number, Memory, resume_handle, handle_done, destroy_handle, promise_value,
  new_generator, destroy_generator, Iterator, next_at, for_each, gen_main,
}

-- one frame, at the address 0
abbrev pub single : Frame → List Line → Memory
single fr out = record { live = (0, fr) ∷ []; next = 1; printed = out }

-- the loop over a memory, when the loop over the frame ends with `r`
abbrev pub seen : List Line → Outcome (List ℕ × Frame) → Outcome Memory
seen out (done r) = done (single r.1 (out ++ map number r.0))
seen out fault = fault
seen out no_fuel = no_fuel

seen_more :
    (v : ℕ) (out : List Line) (r : Outcome (List ℕ × Frame))
    → seen (out ++ (number v ∷ [])) r ≡ seen out (r >>= λ r. done (v ∷ r.0, r.1))
seen_more v out (done (l, fr)) =
    ap (λ l. done (single fr l)) (append_assoc out (number v ∷ []) (map number l))
seen_more v out fault = refl
seen_more v out no_fuel = refl

-- an iterator at the frame
abbrev pub placed : List Line → Frame → Iterator × Memory
placed out fr = (record { coro = some 0; is_end = is_done fr.point }, single fr out)

abbrev pub after_next : Memory → Outcome (Iterator × Memory)
after_next m = handle_done (some 0) m >>= λ d. done (record { coro = some 0; is_end = d }, m)

abbrev pub iterate : ℕ → Iterator × Memory → Outcome Memory
iterate fuel r = for_each fuel r.0 r.1

abbrev pub delete_last : Memory → Outcome Memory
delete_last m = destroy_generator (record { p = some 0 }) m

went_on :
    (r : Outcome Frame) (fr : Frame) (out : List Line)
    → ((r >>= λ fr'. done (record (single fr out) { live = (0, fr') ∷ [] })) >>= after_next)
      ≡ (r >>= λ fr'. done (placed out fr'))
unfolding handle_done
went_on (done fr') fr out = refl
went_on fault fr out = refl
went_on no_fuel fr out = refl

next_at-single :
    (fr : Frame) (out : List Line)
    → next_at (some 0) (single fr out) ≡ (resume fr >>= λ fr'. done (placed out fr'))
unfolding next_at resume_handle
next_at-single fr out = went_on (resume fr) fr out

for_each-for_loop :
    (fuel : ℕ) (fr : Frame) (is_end : Bool) (out : List Line)
    → for_each fuel (record { coro = some 0; is_end = is_end }) (single fr out)
      ≡ seen out (for_loop fuel (record { coro = fr; is_end = is_end }))
unfolding for_each for_loop next promise_value
for_each-for_loop zero fr is_end out = refl
for_each-for_loop (suc fuel) fr true out = ap (λ l. done (single fr l)) (sym (append-nil out))
for_each-for_loop (suc fuel) fr false out =
    ap (λ x. x >>= iterate fuel) (next_at-single fr (out ++ (number fr.current_value ∷ [])))
    ∙ round
        (λ fr'.
          for_each-for_loop fuel fr' (is_done fr'.point) (out ++ (number fr.current_value ∷ [])))
        (resume fr)
  where
    round :
        ((fr' : Frame)
          → iterate fuel (placed (out ++ (number fr.current_value ∷ [])) fr')
            ≡ seen
                (out ++ (number fr.current_value ∷ []))
                (for_loop fuel (record { coro = fr'; is_end = is_done fr'.point })))
        → (r : Outcome Frame)
        → ((r >>= λ fr'. done (placed (out ++ (number fr.current_value ∷ [])) fr'))
            >>= iterate fuel)
          ≡ seen out (
              ((r >>= λ fr'. done (record { coro = fr'; is_end = is_done fr'.point }))
                >>= for_loop fuel)
              >>= λ r. done (fr.current_value ∷ r.0, r.1))
    round again (done fr') =
        again fr'
        ∙ seen_more fr.current_value out
            (for_loop fuel (record { coro = fr'; is_end = is_done fr'.point }))
    round again fault = refl
    round again no_fuel = refl

-- what the program prints when its loop prints the numbers `l`
abbrev pub output : ℕ → List ℕ → List Line
output size l = alloc size 0 ∷ (map number l ++ (delete 0 ∷ []))

gen_main-print_all :
    (fuel size n : ℕ)
    → gen_main fuel size n
      ≡ (print_all fuel n >>= λ r. done (record { live = []; next = 1; printed = output size r.0 }))
unfolding gen_main new_generator destroy_generator destroy_handle print_all begin
gen_main-print_all fuel size n =
    ap (λ x. x >>= λ r. iterate fuel r >>= delete_last) (next_at-single (f n) (alloc size 0 ∷ []))
    ∙ start (resume (f n))
  where
    finish :
        (r : Outcome (List ℕ × Frame))
        → (seen (alloc size 0 ∷ []) r >>= delete_last)
          ≡ (r >>= λ r. done (record { live = []; next = 1; printed = output size r.0 }))
    finish (done r) = refl
    finish fault = refl
    finish no_fuel = refl

    start :
        (r : Outcome Frame)
        → ((r >>= λ fr'. done (placed (alloc size 0 ∷ []) fr')) >>= λ r.
            iterate fuel r >>= delete_last)
          ≡ (((r >>= λ fr'. done (record { coro = fr'; is_end = is_done fr'.point }))
                >>= for_loop fuel)
              >>= λ r. done (record { live = []; next = 1; printed = output size r.0 }))
    start (done fr') =
        ap (λ x. x >>= delete_last)
          (for_each-for_loop fuel fr' (is_done fr'.point) (alloc size 0 ∷ []))
        ∙ finish (for_loop fuel (record { coro = fr'; is_end = is_done fr'.point }))
    start fault = refl
    start no_fuel = refl

-- With more fuel than the bound of the generator's loop, `main` of gen.cpp ends, for any bound: it
-- prints one line of `operator new`, then just 3 * 2^k at the place k, for the k with 3 * 2^k below
-- the bound, and then the line of `operator delete` for the same address; no frame is left; and the
-- coroutine was resumed neither at its final suspension nor without a frame.
pub gen_main-Doubles :
    (fuel size n : ℕ)
    → n < fuel
    → Returns
        (gen_main fuel size n)
        (λ m. (m.live ≡ []) × ((l : List ℕ) × Doubles 3 n l × (m.printed ≡ output size l)))
gen_main-Doubles fuel size n enough =
    let Clean : Memory → Type 0 =
      λ m. (m.live ≡ []) × ((l : List ℕ) × Doubles 3 n l × (m.printed ≡ output size l)) in
    subst (λ r. Returns r Clean) (sym (gen_main-print_all fuel size n))
      (Returns->>= Clean (print_all fuel n)
        (λ r. done (record { live = []; next = 1; printed = output size r.0 }))
        (print_all-Doubles fuel n enough) (λ r h. (refl, (r.0, h.0, refl))))
