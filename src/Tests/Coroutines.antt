-- ===== src/Tests/Coroutines.antt =====
-- Runs of stop1.cpp, awaithe.cpp and gen.cpp.
use await.Base.{ℕ, List, none, some, ◌≡◌, refl, false, true, [], ◌∷◌, done, Returns, arith}
use await.Stop
use await.Stop.Clock.{Reach, begins, goes, Keeps, clock-Keeps}
use await.Stop.Main
use await.Task
use await.Task.Runs.{Ran, main_of-Ran}
use await.Gen
use await.Gen.Yields.{Doubles}
use await.Gen.Memory
use await.Gen.Program
use await.Gen.Lives

-- the timer has called once, and has destroyed the object that it called
abbrev ticked : Stop.World
ticked = record {
  point = Stop.before_tock;
  printed = Stop.tick ∷ [];
  callbacks = true ∷ [];
  bad_resumes = 0;
}

abbrev called : Stop.World
called = record ticked { callbacks = false ∷ true ∷ [] }

abbrev stopped : Stop.World
stopped = record {
  point = Stop.finished;
  printed = Stop.tick ∷ Stop.caught Stop.operation_aborted ∷ [];
  callbacks = [];
  bad_resumes = 0;
}

ticked_ran : Reach ticked
unfolding Stop.noisy_clock Stop.resume
ticked_ran =
    goes
      {w = record called {
        printed = Stop.tick ∷ [];
        callbacks = false ∷ true ∷ [];
        point = Stop.before_tock;
      }}
      (goes {w = Stop.noisy_clock} begins (Stop.calls [] [] Stop.success refl))
      (Stop.destroys [] (true ∷ []) false refl)

clock_ran : Reach stopped
unfolding Stop.noisy_clock Stop.resume
clock_ran =
    goes {w = ticked}
      (goes {w = called} (goes {w = Stop.noisy_clock} begins (Stop.calls [] [] Stop.success refl))
        (Stop.destroys [] (true ∷ []) false refl))
      (Stop.destroys [] [] true refl)

clock-Keeps_example : Keeps stopped
clock-Keeps_example = clock-Keeps clock_ran

stop1_main_lem_example :
    (Main.stop1_main ticked
      ≡ Main.clock_says Stop.tick
        ∷ Main.done_line
        ∷ Main.clock_says (Stop.caught Stop.operation_aborted)
        ∷ Main.context_destroyed
        ∷ [])
    × ((Main.end_clock ticked).point ≡ Stop.finished)
    × ((Main.end_clock ticked).bad_resumes ≡ 0)
stop1_main_lem_example = Main.stop1_main_lem ticked_ran

-- the program as it is, with what it prints
task_main_prints :
    (Task.task_main).printed
    ≡ "f started\n" ∷ "g running\n" ∷ "has waiter, resuming...\n" ∷ "f resumed\n" ∷ "no waiter\n\n"
      ∷ "post-resume" ∷ []
unfolding Task.task_main Task.main_of Task.resume
task_main_prints = refl

main_of-Ran_example : Ran Task.f (Task.main_of Task.f)
main_of-Ran_example = main_of-Ran Task.f

-- the program as it is
prints :
    Gen.print_all 201 200
    ≡ done (
      3 ∷ 6 ∷ 12 ∷ 24 ∷ 48 ∷ 96 ∷ 192 ∷ [],
      record { point = Gen.at_final; n = 200; i = 384; current_value = 192 },
    )
unfolding Gen.print_all Gen.begin Gen.for_loop Gen.next Gen.resume
prints = refl

-- with a frame of 56 bytes
main_prints :
    Memory.gen_main 11 56 10
    ≡ done (record {
      live = [];
      next = 1;
      printed = Memory.alloc 56 0 ∷ Memory.number 3 ∷ Memory.number 6 ∷ Memory.delete 0 ∷ [];
    })
unfolding Memory.gen_main Memory.new_generator Memory.next_at Memory.for_each Memory.resume_handle
    Memory.handle_done Memory.promise_value Memory.destroy_generator Memory.destroy_handle
    Gen.resume
main_prints = refl

gen_main-Doubles_example :
    Returns
      (Memory.gen_main 201 56 200)
      (λ m. (m.live ≡ []) × ((l : List ℕ) × Doubles 3 200 l × (m.printed ≡ Program.output 56 l)))
gen_main-Doubles_example = Program.gen_main-Doubles 201 56 200 (omega arith)

-- a generator that has been moved, and has gone on once
abbrev two_generators : Lives.World
two_generators = record {
  memory = record {
    live = (0, record { point = Gen.at_yield; n = 10; i = 3; current_value = 3 }) ∷ [];
    next = 1;
    printed = Memory.alloc 56 0 ∷ [];
  };
  generators = record { p = some 0 } ∷ record { p = none } ∷ [];
}

generators_ran : Lives.Reach two_generators
unfolding Memory.new_generator Memory.move_generator Memory.next_at Memory.resume_handle
    Memory.handle_done Gen.resume
generators_ran =
    Lives.goes
      (Lives.goes (Lives.goes Lives.begins (Lives.makes 56 10))
        (Lives.moves [] [] (record { p = some 0 }) refl))
      (Lives.goes_on [] (record { p = none } ∷ []) (record { p = some 0 })
        (record { coro = some 0; is_end = false }) two_generators.memory refl refl)

generators-Owned_example : Lives.Counted two_generators × Lives.CanDie two_generators
generators-Owned_example = Lives.Owned.generators-Owned generators_ran
