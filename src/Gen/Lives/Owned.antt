-- ===== src/Gen/Lives/Owned.antt =====
-- Each frame of gen.cpp has one owner until it is destroyed.
use await.Base.{
  ℕ, ◌+◌, ◌≤◌, ◌≡◌, refl, ap, subst, ◌∙◌, Bool, to_ℕ, ltb, List, [], ◌∷◌, ◌++◌, Option, none, some,
  total_split, total-append, Every, Outcome, done, fault, no_fuel, ◌>>=◌, ◌==◌, arith,
}
use await.Gen.{Frame, resume}
use await.Gen.Memory.{
  alloc, delete, number, Memory, Handle, find, store, remove, with_frame, resume_handle,
  handle_done, destroy_handle, Generator, new_generator, move_generator, destroy_generator,
  Iterator, next_at,
}
use await.Gen.Lives.{
  World, Step, makes, moves, goes_on, prints, dies, Reach, begins, goes, is, owners, frames_at,
  allocs, deletes, Counted, CanDie,
}
use await.Gen.Lives.Frames.{find_lem, store-frames, remove-frames}

-- what the destructor has done
destroy_at :
    (o : Option Frame) (a : ℕ) (m m' : Memory)
    → (with_frame o
        λ fr. done (record m { live = remove a m.live; printed = m.printed ++ (delete a ∷ []) }))
      ≡ done m'
    → ((fr : Frame) × (o ≡ some fr))
      × (record m { live = remove a m.live; printed = m.printed ++ (delete a ∷ []) } ≡ m')
destroy_at none a m m' e = absurd (cc)
destroy_at (some fr) a m m' e = ((fr, refl), cc)

-- the frame of the handle has gone on, and nothing else
resumed_at :
    (o : Option Frame) (a : ℕ) (m : Memory) (r : Iterator × Memory)
    (finish : Memory → Outcome (Iterator × Memory))
    → ((m' : Memory) → finish m' ≡ done r → m' ≡ r.1)
    → ((with_frame o λ fr. resume fr >>= λ fr'. done (record m { live = store a fr' m.live }))
        >>= finish)
      ≡ done r
    → (fr' : Frame) × (record m { live = store a fr' m.live } ≡ r.1)
resumed_at none a m r finish keeps e = absurd (cc)
resumed_at (some fr) a m r finish keeps e = by_outcome (resume fr) e
  where
    by_outcome :
        (x : Outcome Frame)
        → ((x >>= λ fr'. done (record m { live = store a fr' m.live })) >>= finish) ≡ done r
        → (fr' : Frame) × (record m { live = store a fr' m.live } ≡ r.1)
    by_outcome (done fr') e = (fr', keeps (record m { live = store a fr' m.live }) e)
    by_outcome fault e = absurd (cc)
    by_outcome no_fuel e = absurd (cc)

asked :
    (h : Handle) (x : Outcome Bool) (m : Memory) (r : Iterator × Memory)
    → Path
        (Outcome (Iterator × Memory))
        (x >>= λ d. done (record { coro = h; is_end = d }, m))
        (done r)
    → m ≡ r.1
asked h (done d) m r e = cc
asked h fault m r e = absurd (cc)
asked h no_fuel m r e = absurd (cc)

next_at-Counted :
    (h : Handle) (gs : List Generator) (m m' : Memory) (it : Iterator)
    → next_at h m ≡ done (it, m')
    → Counted (record { memory = m; generators = gs })
    → Counted (record { memory = m'; generators = gs })
unfolding next_at resume_handle
next_at-Counted none gs m m' it e c = absurd (cc)
next_at-Counted (some a) gs m m' it e c =
    let (fr', same) =
      resumed_at (find a m.live) a m (it, m')
        (λ x. handle_done (some a) x >>= λ d. done (record { coro = some a; is_end = d }, x))
        (λ x. asked (some a) (handle_done (some a) x) x (it, m')) e in
    subst (λ m. Counted (record { memory = m; generators = gs })) same
      (record {
        kept = λ x. store-frames x a fr' m.live ∙ c.kept x;
        once = c.once;
        allocated = c.allocated;
      })

destroy-Counted :
    (h : Handle) (w : World) (before after : List Generator) (m : Memory)
    → w.generators ≡ before ++ (record { p = h } ∷ after)
    → destroy_generator (record { p = h }) w.memory ≡ done m
    → Counted w
    → Counted (record { memory = m; generators = before ++ after })
unfolding destroy_generator destroy_handle
destroy-Counted none w before after m e d c =
    let same : w.memory ≡ m = cc in
    subst (λ m. Counted (record { memory = m; generators = before ++ after })) same
      (record {
        kept = λ a. omega (
          arith,
          c.kept a,
          ap (owners a) e,
          total_split (λ (g : Generator). is a g.p) before (record { p = none }) after,
        );
        once = λ a. omega (
          arith,
          c.once a,
          ap (owners a) e,
          total_split (λ (g : Generator). is a g.p) before (record { p = none }) after,
        );
        allocated = c.allocated;
      })
destroy-Counted (some b) w before after m e d c =
    let ((fr, found), same) = destroy_at (find b w.memory.live) b w.memory m d in
    let owner = λ (a : ℕ) (g : Generator). is a g.p in
    let g : Generator = record { p = some b } in
    subst (λ m. Counted (record { memory = m; generators = before ++ after })) same
      (record {
        kept = λ a. omega (
          arith,
          c.kept a,
          ap (owners a) e,
          total_split (owner a) before g after,
          remove-frames a b fr w.memory.live found,
        );
        once = λ a. omega (
          arith,
          c.once a,
          ap (owners a) e,
          total_split (owner a) before g after,
          total-append (deletes a) w.memory.printed (delete b ∷ []),
        );
        allocated = λ a.
            omega (arith, c.allocated a, total-append (allocs a) w.memory.printed (delete b ∷ []));
      })

new_address : (a n : ℕ) → to_ℕ (n == a) + to_ℕ (ltb a n) ≡ to_ℕ (ltb a (n + 1))
new_address a n = ground arith

Step-Counted : {w w' : World} → Step w w' → Counted w → Counted w'
unfolding new_generator move_generator
Step-Counted {w = w} (makes size n) c = record {
  kept = λ a. omega (arith, c.kept a);
  once = λ a. omega (
    arith,
    c.once a,
    new_address a w.memory.next,
    total-append (deletes a) w.memory.printed (alloc size w.memory.next ∷ []),
  );
  allocated = λ a. omega (
    arith,
    c.allocated a,
    new_address a w.memory.next,
    total-append (allocs a) w.memory.printed (alloc size w.memory.next ∷ []),
  );
}
Step-Counted {w = w} (moves before after rhs e) c =
    let owner = λ (a : ℕ) (g : Generator). is a g.p in
    let left : Generator = record { p = none } in
    record {
      kept = λ a. omega (
        arith,
        c.kept a,
        ap (owners a) e,
        total_split (owner a) before rhs after,
        total_split (owner a) before left after,
      );
      once = λ a. omega (
        arith,
        c.once a,
        ap (owners a) e,
        total_split (owner a) before rhs after,
        total_split (owner a) before left after,
      );
      allocated = c.allocated;
    }
Step-Counted {w = w} (goes_on before after g it m e n) c =
    next_at-Counted g.p w.generators w.memory m it n c
Step-Counted {w = w} (prints n) c = record {
  kept = c.kept;
  once = λ a. omega (arith, c.once a, total-append (deletes a) w.memory.printed (number n ∷ []));
  allocated =
      λ a. omega (arith, c.allocated a, total-append (allocs a) w.memory.printed (number n ∷ []));
}
Step-Counted {w = w} (dies before after g m e d) c = destroy-Counted g.p w before after m e d c

can_destroy :
    (h : Handle) (m : Memory)
    → ((a : ℕ) → is a h ≤ frames_at a m.live)
    → (m' : Memory) × (destroy_generator (record { p = h }) m ≡ done m')
unfolding destroy_generator destroy_handle
can_destroy none m some_frame = (m, refl)
can_destroy (some a) m some_frame =
    let itself : to_ℕ (a == a) ≡ 1 = ground arith in
    let (fr, found) = find_lem a m.live (omega (arith, some_frame a, itself)) in
    (record m { live = remove a m.live; printed = m.printed ++ (delete a ∷ []) }, rw found refl)

all_can_die :
    (m : Memory) (gs : List Generator)
    → ((a : ℕ) → owners a gs ≤ frames_at a m.live)
    → Every (λ g. (m' : Memory) × (destroy_generator g m ≡ done m')) gs
all_can_die m [] h = tt
all_can_die m (g ∷ gs) h =
    (can_destroy g.p m (λ a. omega (arith, h a)), all_can_die m gs (λ a. omega (arith, h a)))

reach-Counted : {w : World} → Reach w → Counted w
reach-Counted begins = record {
  kept = λ a. refl;
  once = λ a. ground arith;
  allocated = λ a. ground arith;
}
reach-Counted (goes r s) = Step-Counted s (reach-Counted r)

-- In every run of a program that makes generators, moves them, runs them and destroys them, as
-- gen.cpp does with one: each address that `operator new` has given was printed once as given, and
-- has one generator that owns its frame and was not given back, or none and was given back once; no
-- other address was ever printed as given or given back; there is just one frame at each owned
-- address; and the destructor of each generator that there is can run, with the frame that it
-- needs.
pub generators-Owned : {w : World} → Reach w → Counted w × CanDie w
generators-Owned {w = w} r =
    let c = reach-Counted r in (c, all_can_die w.memory w.generators (λ a. omega (arith, c.kept a)))
