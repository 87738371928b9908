-- ===== src/Gen/Memory.antt =====
-- The memory of 2016_Jax/gen.cpp: `operator new` and `operator delete`, which print, the handles of
-- 2016_Jax/coroutine.h as pointers to frames, and `generator` as the owner of one. The call of `f` is not elided.
-- `malloc` gives an address that it has not given before, here the number of those before it.
use await.Base.{
  ℕ, zero, suc, ◌+◌, Bool, true, false, List, [], ◌∷◌, ◌++◌, Option, none, some, Outcome, done,
  fault, no_fuel, ◌>>=◌, ◌==◌, if◌then◌else◌,
}
use await.Gen.{Frame, f, resume, is_done}

-- what is printed
pub data Line : Type 0 where
  alloc : (size address : ℕ) → Line
  delete : (address : ℕ) → Line
  number : (n : ℕ) → Line

-- the frames that are there, by their addresses
pub record Memory : Type 0 where
  pub live : List (ℕ × Frame)
  pub next : ℕ
  pub printed : List Line

-- `ptr` of a handle
abbrev pub Handle : Type 0
Handle = Option ℕ

abbrev pub from_address : ℕ → Handle
from_address a = some a

-- `explicit operator bool`
abbrev pub is_set : Handle → Bool
is_set none = false
is_set (some a) = true

abbrev pub same_handle : Handle → Handle → Bool
same_handle none none = true
same_handle none (some b) = false
same_handle (some a) none = false
same_handle (some a) (some b) = a == b

-- a frame at an address, and nothing where there is none
abbrev pub find : ℕ → List (ℕ × Frame) → Option Frame
find a [] = none
find a (b ∷ bs) = let rest = find a bs in if b.0 == a then some b.1 else rest

abbrev pub store : ℕ → Frame → List (ℕ × Frame) → List (ℕ × Frame)
store a fr [] = []
store a fr (b ∷ bs) = let rest = store a fr bs in if b.0 == a then (a, fr) ∷ bs else b ∷ rest

abbrev pub remove : ℕ → List (ℕ × Frame) → List (ℕ × Frame)
remove a [] = []
remove a (b ∷ bs) = let rest = remove a bs in if b.0 == a then bs else b ∷ rest

-- An operation on the frame that a handle points to; without one its behaviour is undefined.
abbrev pub with_frame : {A : Type 0} → Option Frame → (Frame → Outcome A) → Outcome A
with_frame none k = fault
with_frame (some fr) k = k fr

abbrev pub at_handle : {A : Type 0} → Handle → Memory → (ℕ → Frame → Outcome A) → Outcome A
at_handle none m k = fault
at_handle (some a) m k = with_frame (find a m.live) (k a)

-- `resume()`
unfoldable pub resume_handle : Handle → Memory → Outcome Memory
unfolding resume
resume_handle h m =
    at_handle h m (λ a fr. resume fr >>= λ fr'. done (record m { live = store a fr' m.live }))

-- `done()`
unfoldable pub handle_done : Handle → Memory → Outcome Bool
handle_done h m = at_handle h m (λ a fr. done (is_done fr.point))

-- `destroy()`, with the `operator delete` of the frame
unfoldable pub destroy_handle : Handle → Memory → Outcome Memory
destroy_handle h m =
    at_handle h m
      (λ a fr. done (record m { live = remove a m.live; printed = m.printed ++ (delete a ∷ []) }))

-- `current_value` of the promise
unfoldable pub promise_value : Handle → Memory → Outcome ℕ
promise_value h m = at_handle h m (λ a fr. done fr.current_value)

pub record Generator : Type 0 where
  pub p : Handle

-- `f()`: a frame of that size from `operator new`, and the generator of `get_return_object`
unfoldable pub new_generator : ℕ → ℕ → Memory → Generator × Memory
new_generator size n m = (
  record { p = from_address m.next },
  record {
    live = (m.next, f n) ∷ m.live;
    next = m.next + 1;
    printed = m.printed ++ (alloc size m.next ∷ []);
  },
)

-- the move constructor: the new generator, and what is left of the old one
unfoldable pub move_generator : Generator → Generator × Generator
move_generator rhs = (record { p = rhs.p }, record { p = none })

-- `~generator()`
unfoldable pub destroy_generator : Generator → Memory → Outcome Memory
unfolding destroy_handle
destroy_generator g m = let rest = destroy_handle g.p m in if is_set g.p then rest else done m

-- An iterator with its two fields; the end has `is_end` set.
pub record Iterator : Type 0 where
  pub coro : Handle
  pub is_end : Bool

abbrev pub same_iterator : Iterator → Iterator → Bool
same_iterator left right =
    if left.is_end then right.is_end else if right.is_end then false else true

-- `begin()`, and `operator++` on an iterator of the same handle
unfoldable pub next_at : Handle → Memory → Outcome (Iterator × Memory)
unfolding resume_handle handle_done
next_at h m =
    resume_handle h m >>= λ m'. handle_done h m' >>= λ d. done (record { coro = h; is_end = d }, m')

abbrev pub end_of : Handle → Iterator
end_of h = record { coro = h; is_end = true }

-- the range-based `for` of `main`; `fuel` bounds its rounds
unfoldable pub for_each : ℕ → Iterator → Memory → Outcome Memory
unfolding promise_value next_at
for_each zero it m = no_fuel
for_each (suc fuel) it m =
    let rest = promise_value it.coro m >>= λ v.
    next_at it.coro (record m { printed = m.printed ++ (number v ∷ []) }) >>= λ r.
    for_each fuel r.0 r.1 in
    if same_iterator it (end_of it.coro) then done m else rest

-- `main` of the program, with the size of the frame and the bound of the loop
unfoldable pub gen_main : ℕ → ℕ → ℕ → Outcome Memory
unfolding new_generator next_at for_each destroy_generator
gen_main fuel size n =
    let (g, m) = new_generator size n (record { live = []; next = 0; printed = [] }) in
    next_at g.p m >>= λ r. for_each fuel r.0 r.1 >>= λ m'. destroy_generator g m'
