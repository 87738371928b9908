-- ===== src/Gen/Lives.antt =====
-- The lives of the frames of gen.cpp, in a program with any number of generators.
pub mod Frames
pub mod Owned
use await.Base.{
  ℕ, zero, suc, ◌+◌, ◌≤◌, ◌<◌, ◌≡◌, refl, ap, sym, subst, ◌∙◌, Bool, true, false, Bool-cases, inl,
  inr, to_ℕ, ltb, List, [], ◌∷◌, ◌++◌, Option, none, some, total, total_split, total-append, Every,
  Outcome, done, fault, no_fuel, ◌>>=◌, ◌==◌, arith, if◌then◌else◌,
}
use await.Gen.{Frame, f, resume, is_done}
use await.Gen.Memory.{
  Line, alloc, delete, number, Memory, Handle, find, store, remove, with_frame, resume_handle,
  handle_done, destroy_handle, Generator, new_generator, move_generator, destroy_generator,
  Iterator, next_at,
}

pub record World : Type 0 where
  pub memory : Memory
  pub generators : List Generator

-- A loop over a generator makes it go on with `begin` or `operator++`, and reads its value.
pub data Step : World → World → Type 0 where
  makes :
      {w : World} (size n : ℕ)
      → Step w (record {
        memory = (new_generator size n w.memory).1;
        generators = (new_generator size n w.memory).0 ∷ w.generators;
      })
  moves :
      {w : World} (before after : List Generator) (rhs : Generator)
      → w.generators ≡ before ++ (rhs ∷ after)
      → Step w (record w {
        generators = (move_generator rhs).0 ∷ (before ++ ((move_generator rhs).1 ∷ after));
      })
  goes_on :
      {w : World} (before after : List Generator) (g : Generator) (it : Iterator) (m : Memory)
      → w.generators ≡ before ++ (g ∷ after)
      → next_at g.p w.memory ≡ done (it, m)
      → Step w (record w { memory = m })
  prints :
      {w : World} (n : ℕ)
      → Step w
          (record w { memory = record w.memory { printed = w.memory.printed ++ (number n ∷ []) } })
  dies :
      {w : World} (before after : List Generator) (g : Generator) (m : Memory)
      → w.generators ≡ before ++ (g ∷ after)
      → destroy_generator g w.memory ≡ done m
      → Step w (record { memory = m; generators = before ++ after })

pub data Reach : World → Type 0 where
  begins : Reach (record { memory = record { live = []; next = 0; printed = [] }; generators = [] })
  goes : {w w' : World} → Reach w → Step w w' → Reach w'

abbrev pub is : ℕ → Handle → ℕ
is a none = 0
is a (some b) = to_ℕ (b == a)

abbrev pub owners : ℕ → List Generator → ℕ
owners a l = total (λ g. is a g.p) l

abbrev pub frames_at : ℕ → List (ℕ × Frame) → ℕ
frames_at a l = total (λ b. to_ℕ (b.0 == a)) l

-- how often an address was given, and given back, as the lines say
abbrev pub allocs : ℕ → Line → ℕ
allocs a (alloc size b) = to_ℕ (b == a)
allocs a (delete b) = 0
allocs a (number n) = 0

abbrev pub deletes : ℕ → Line → ℕ
deletes a (alloc size b) = 0
deletes a (delete b) = to_ℕ (b == a)
deletes a (number n) = 0

pub record Counted (w : World) : Type 0 where
  pub kept : (a : ℕ) → frames_at a w.memory.live ≡ owners a w.generators
  pub once :
      (a : ℕ)
      → owners a w.generators + total (deletes a) w.memory.printed ≡ to_ℕ (ltb a w.memory.next)
  pub allocated : (a : ℕ) → total (allocs a) w.memory.printed ≡ to_ℕ (ltb a w.memory.next)

-- The destructor of each generator finds what it needs.
abbrev pub CanDie : World → Type 0
CanDie w = Every (λ g. (m : Memory) × (destroy_generator g w.memory ≡ done m)) w.generators
