-- ===== src/Tests/Promises.antt =====
-- Runs of the coroutines of 2017_CppCon/live that give a future back.
use await.Base.{◌≡◌, refl, Bool, true, false, ℤ, pos, [], ◌∷◌, Option, none, some, Returns, done}
use await.Promise.{
  PromiseLib, std_promise, boost_promise, std_void_promise, boost_void_promise, first_promise, Body,
  call, feed, plain, number, hello, first_main,
}
use await.Promise.Settled.{Settled, promises-Settle}

-- what a promise keeps
data Cell (R : Type 0) : Type 0 where
  empty : Cell R
  value : (r : R) → Cell R
  exception : Cell R

abbrev cell_ready : {R : Type 0} → Cell R → Bool
cell_ready empty = false
cell_ready (value r) = true
cell_ready exception = true

abbrev cell_get : {R : Type 0} → Cell R → Option R
cell_get empty = none
cell_get (value r) = some r
cell_get exception = none

abbrev set_once : {R : Type 0} → Cell R → Cell R → Option (Cell R)
set_once new empty = some new
set_once new (value r) = none
set_once new exception = none

set_once_lem :
    {R : Type 0} (new p : Cell R)
    → cell_ready p ≡ false
    → cell_ready new ≡ true
    → (q : Cell R) × (set_once new p ≡ some q) × (cell_ready q ≡ true) × (cell_get q ≡ cell_get new)
set_once_lem new empty fresh ready = (new, refl, ready, refl)
set_once_lem new (value r) fresh ready = absurd (cc)
set_once_lem new exception fresh ready = absurd (cc)

set_twice_lem : {R : Type 0} (new p : Cell R) → cell_ready p ≡ true → set_once new p ≡ none
set_twice_lem new empty ready = absurd (cc)
set_twice_lem new (value r) ready = refl
set_twice_lem new exception ready = refl

abbrev cells : (R : Type 0) → PromiseLib R
cells R = record {
  Promise = Cell R;
  new = empty;
  set_value = λ r. set_once (value r);
  set_exception = set_once exception;
  is_ready = cell_ready;
  get = cell_get;
  new-is_ready = refl;
  value-kept = λ r p fresh. set_once_lem (value r) p fresh refl;
  exception-kept = λ p fresh. set_once_lem exception p fresh refl;
  value-once = λ r p ready. set_twice_lem (value r) p ready;
  exception-once = λ p ready. set_twice_lem exception p ready;
}

-- suspends once, and returns what it is resumed with
abbrev echo : {R : Type 0} → Body R R
echo {R = R} = record {
  State = Option R;
  start = none;
  step = λ r s. some r;
  result = λ s. elim s [ none ↦ none | some r ↦ some (some r) ];
}

-- suspends once, and then throws
abbrev throws : Body ℤ (Unit {0})
throws = record {
  State = Bool;
  start = false;
  step = λ r s. true;
  result = λ s. elim s [ false ↦ none | true ↦ some none ];
}

echo_returns :
    feed (cells ℤ) (std_promise (cells ℤ)) echo (pos 5 ∷ [])
    ≡ done (record { frame = none; promise = value (pos 5) })
unfolding feed call
echo_returns = refl

promises-Settle_example :
    Returns
      (feed (cells ℤ) (std_promise (cells ℤ)) echo (pos 5 ∷ []))
      (Settled (cells ℤ) echo (plain echo (pos 5 ∷ [])))
    × Returns
        (feed (cells ℤ) (boost_promise (cells ℤ)) echo (pos 5 ∷ []))
        (Settled (cells ℤ) echo (plain echo (pos 5 ∷ [])))
    × Returns
        (feed (cells (Unit {0})) (std_void_promise (cells (Unit {0}))) throws (pos 5 ∷ []))
        (Settled (cells (Unit {0})) throws (plain throws (pos 5 ∷ [])))
    × Returns
        (feed (cells (Unit {0})) (boost_void_promise (cells (Unit {0}))) throws (pos 5 ∷ []))
        (Settled (cells (Unit {0})) throws (plain throws (pos 5 ∷ [])))
    × Returns
        (feed (cells ℤ) (first_promise (cells ℤ)) echo (pos 5 ∷ []))
        (Settled (cells ℤ) echo (plain echo (pos 5 ∷ [])))
    × Returns (first_main (cells ℤ)) (λ printed. printed ≡ number (pos 42) ∷ hello ∷ [])
promises-Settle_example =
    promises-Settle (cells ℤ) (cells (Unit {0})) (cells ℤ) echo throws echo (pos 5 ∷ [])
