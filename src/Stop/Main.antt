-- ===== src/Stop/Main.antt =====
-- `main` of 2017_CppCon/live/stop1.cpp: the clock runs until the second timer stops the context, and goes away
-- with the context, whose destructor destroys the callback objects that are left.
use await.Base.{
  ◌≡◌, refl, ap, ap₂, sym, ◌∙◌, Bool, true, false, to_ℕ, List, [], ◌∷◌, ◌++◌, map, total, arith,
}
use mathlib.Core.List.{append-nil}
use await.Stop.{
  Line, caught, Point, before_tick, before_tock, finished, World, resume, resume_at, destroyed,
  operation_aborted,
}
use await.Stop.Clock.{Reach, clock-Keeps, runs}

pub data Text : Type 0 where
  clock_says : (line : Line) → Text
  done_line : Text
  context_destroyed : Text

abbrev pub destroy_all : List Bool → World → World
destroy_all [] w = record w { callbacks = [] }
destroy_all (c ∷ cs) w = destroy_all cs (destroyed c (record w { callbacks = cs }))

-- what the clock does when its context goes away, with what it prints from then on
unfoldable pub end_clock : World → World
end_clock w = destroy_all w.callbacks (record w { printed = [] })

-- what is printed, when the clock is in the state `w` as `io.run` returns
unfoldable pub stop1_main : World → List Text
unfolding end_clock
stop1_main w =
    map clock_says w.printed
    ++ (done_line ∷ (map clock_says (end_clock w).printed ++ (context_destroyed ∷ [])))

abbrev pub last_lines : Point → List Line
last_lines before_tick = caught operation_aborted ∷ []
last_lines before_tock = caught operation_aborted ∷ []
last_lines finished = []

-- a clock that has just been told of an aborted operation
abbrev abort : List Bool → World → World
abort cs w = record w {
  point = finished;
  printed = w.printed ++ (caught operation_aborted ∷ []);
  callbacks = cs;
}

-- a clock that has ended says no more
destroy_finished :
    (cs : List Bool) (w : World)
    → total to_ℕ cs ≡ 0
    → destroy_all cs w ≡ record w { callbacks = [] }
destroy_finished [] w h = refl
destroy_finished (true ∷ cs) w h = absurd (omega (arith, h))
destroy_finished (false ∷ cs) w h =
    destroy_finished cs (record w { callbacks = cs }) (omega (arith, h))

destroy_all-eq :
    (cs : List Bool) (p : Point) (w : World)
    → p ≡ w.point
    → total to_ℕ cs ≡ runs p
    → destroy_all cs w
      ≡ record w { point = finished; printed = w.printed ++ last_lines p; callbacks = [] }
unfolding resume
destroy_all-eq [] before_tick w e h = absurd (omega (arith, h))
destroy_all-eq [] before_tock w e h = absurd (omega (arith, h))
destroy_all-eq [] finished w e h =
    ap₂ (λ q l. record w { point = q; printed = l; callbacks = [] }) (sym e)
      (sym (append-nil w.printed))
destroy_all-eq (false ∷ cs) p w e h =
    destroy_all-eq cs p (record w { callbacks = cs }) e (omega (arith, h))
destroy_all-eq (true ∷ cs) finished w e h = absurd (omega (arith, h))
destroy_all-eq (true ∷ cs) before_tick w e h =
    ap (λ q. destroy_all cs (resume_at q operation_aborted (record w { callbacks = cs }))) (sym e)
    ∙ destroy_finished cs (abort cs w) (omega (arith, h))
destroy_all-eq (true ∷ cs) before_tock w e h =
    ap (λ q. destroy_all cs (resume_at q operation_aborted (record w { callbacks = cs }))) (sym e)
    ∙ destroy_finished cs (abort cs w) (omega (arith, h))

-- Whenever `io.run` returns in a run of stop1.cpp: what `main` prints is what the clock has said by then, the
-- line `done`, one error of an aborted operation if the clock had not ended, and only then that the context
-- is destroyed; by then the clock has ended, and it was never resumed after its end.
pub stop1_main_lem :
    {w : World}
    → Reach w
    → (stop1_main w
        ≡ map clock_says w.printed
          ++ (done_line ∷ (map clock_says (last_lines w.point) ++ (context_destroyed ∷ []))))
      × ((end_clock w).point ≡ finished)
      × ((end_clock w).bad_resumes ≡ 0)
unfolding stop1_main end_clock
stop1_main_lem {w = w} r =
    let k = clock-Keeps r in
    let e = destroy_all-eq w.callbacks w.point (record w { printed = [] }) refl k.one_holder in
    (
      ap
          (λ v.
            map clock_says w.printed
            ++ (done_line ∷ (map clock_says v.printed ++ (context_destroyed ∷ []))))
          e,
      ap (λ v. v.point) e,
      ap (λ v. v.bad_resumes) e ∙ k.none_bad,
    )
