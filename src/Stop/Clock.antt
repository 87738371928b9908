-- ===== src/Stop/Clock.antt =====
-- What the clock of stop1.cpp prints, and who holds its coroutine.
use await.Base.{
  ℕ, ◌+◌, ◌≡◌, refl, ap, true, false, to_ℕ, List, [], ◌∷◌, ◌++◌, total, total-append, total_split,
  arith, Bool-cases, ◌⊎◌, inl, inr,
}
use await.Stop.{
  Line, ErrorCode, is_error, tick, tock, caught, Point, before_tick, before_tock, finished, World,
  noisy_clock, resume, resume_at, operation_aborted, Step, moves, calls, destroys,
}

pub data Reach : World → Type 0 where
  begins : Reach noisy_clock
  goes : {w w' : World} → Reach w → Step w w' → Reach w'

-- What the clock says up to a point: ticks and tocks in turn from the first, and an error at the end.
pub data Says : Point → List Line → Type 0 where
  nothing : Says before_tick []
  ticks : {l : List Line} → Says before_tick l → Says before_tock (l ++ (tick ∷ []))
  tocks : {l : List Line} → Says before_tock l → Says before_tick (l ++ (tock ∷ []))
  fails_first :
      {l : List Line} (ec : ErrorCode) → Says before_tick l → Says finished (l ++ (caught ec ∷ []))
  fails_second :
      {l : List Line} (ec : ErrorCode) → Says before_tock l → Says finished (l ++ (caught ec ∷ []))

abbrev pub runs : Point → ℕ
runs before_tick = 1
runs before_tock = 1
runs finished = 0

-- One callback holds the coroutine until it ends, and then none does; it is never resumed after its end.
pub record Keeps (w : World) : Type 0 where
  pub says : Says w.point w.printed
  pub one_holder : total to_ℕ w.callbacks ≡ runs w.point
  pub none_bad : w.bad_resumes ≡ 0

-- A resumption, when no callback holds the coroutine any more.
resume-Keeps :
    (p : Point) (ec : ErrorCode) (w : World)
    → Says p w.printed
    → total to_ℕ w.callbacks + 1 ≡ runs p
    → w.bad_resumes ≡ 0
    → Keeps (resume_at p ec w)
resume-Keeps p ec w says none bad = go p says none (Bool-cases (is_error ec))
  where
    go :
        (p : Point)
        → Says p w.printed
        → total to_ℕ w.callbacks + 1 ≡ runs p
        → ((is_error ec) ≡ true) ⊎ ((is_error ec) ≡ false)
        → Keeps (resume_at p ec w)
    go before_tick says none (inr e) = rw e (record {
      says = ticks says;
      one_holder = omega (arith, none, total-append to_ℕ w.callbacks (true ∷ []));
      none_bad = bad;
    })
    go before_tick says none (inl e) =
        rw e
          (record { says = fails_first ec says; one_holder = omega (arith, none); none_bad = bad })
    go before_tock says none (inr e) = rw e (record {
      says = tocks says;
      one_holder = omega (arith, none, total-append to_ℕ w.callbacks (true ∷ []));
      none_bad = bad;
    })
    go before_tock says none (inl e) =
        rw e
          (record { says = fails_second ec says; one_holder = omega (arith, none); none_bad = bad })
    go finished says none e = absurd (omega (arith, none))

Step-Keeps : {w w' : World} → Step w w' → Keeps w → Keeps w'
unfolding resume
Step-Keeps {w = w} (moves before after coro e) k = record {
  says = k.says;
  one_holder = omega (
    arith,
    k.one_holder,
    ap (total to_ℕ) e,
    total_split to_ℕ before coro after,
    total_split to_ℕ before false after,
  );
  none_bad = k.none_bad;
}
Step-Keeps {w = w} (calls before after ec e) k =
    resume-Keeps w.point ec (record w { callbacks = before ++ (false ∷ after) }) k.says
      (omega (
        arith,
        k.one_holder,
        ap (total to_ℕ) e,
        total_split to_ℕ before true after,
        total_split to_ℕ before false after,
      ))
      k.none_bad
Step-Keeps {w = w} (destroys before after true e) k =
    resume-Keeps w.point operation_aborted (record w { callbacks = before ++ after }) k.says
      (omega (arith, k.one_holder, ap (total to_ℕ) e, total_split to_ℕ before true after))
      k.none_bad
Step-Keeps {w = w} (destroys before after false e) k = record {
  says = k.says;
  one_holder = omega (arith, k.one_holder, ap (total to_ℕ) e, total_split to_ℕ before false after);
  none_bad = k.none_bad;
}

-- In every run of the clock of stop1.cpp, with a timer that moves, calls and destroys callbacks
-- in any order: it prints ticks and tocks in turn and at most one error, as the last line; just
-- one callback holds the coroutine until it ends, and none after, so that it is resumed once for
-- each wait and never after its end.
pub clock-Keeps : {w : World} → Reach w → Keeps w
unfolding noisy_clock
clock-Keeps begins = record { says = nothing; one_holder = refl; none_bad = refl }
clock-Keeps (goes r s) = Step-Keeps s (clock-Keeps r)

pub ended : (p : Point) → runs p ≡ 0 → p ≡ finished
ended before_tick h = absurd (omega (arith, h))
ended before_tock h = absurd (omega (arith, h))
ended finished h = refl
