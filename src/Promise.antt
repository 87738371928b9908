-- ===== src/Promise.antt =====
-- The promise types of 2017_CppCon/live/first.cpp, future_adapter.h and boost_coro.h, which make a function that
-- returns a future a coroutine. `std::promise` and `boost::promise` are a parameter. A coroutine's body is a
-- state with the step that each resumption makes, and `first.cpp` is the program that returns 42.
pub mod Settled
pub mod Sessions
use await.Base.{
  ℕ, ◌≡◌, Bool, true, false, List, [], ◌∷◌, Option, none, some, ℤ, pos, Outcome, done, fault, ◌>>=◌,
  if◌then◌else◌,
}

-- A promise together with its future. A second result makes `set_value` and `set_exception` throw, which is `none`; `get`
-- is that of a future which is ready, where `none` is the exception.
pub record PromiseLib (R : Type 0) : Type 1 where
  pub Promise : Type 0
  pub new : Promise
  pub set_value : R → Promise → Option Promise
  pub set_exception : Promise → Option Promise
  pub is_ready : Promise → Bool
  pub get : Promise → Option R
  pub new-is_ready : is_ready new ≡ false
  pub value-kept :
      (r : R) (p : Promise)
      → is_ready p ≡ false
      → (q : Promise) × (set_value r p ≡ some q) × (is_ready q ≡ true) × (get q ≡ some r)
  pub exception-kept :
      (p : Promise)
      → is_ready p ≡ false
      → (q : Promise) × (set_exception p ≡ some q) × (is_ready q ≡ true) × (get q ≡ none)
  pub value-once : (r : R) (p : Promise) → is_ready p ≡ true → set_value r p ≡ none
  pub exception-once : (p : Promise) → is_ready p ≡ true → set_exception p ≡ none

-- `promise_type`, with whether the coroutine suspends before its body and behind it
pub record PromiseType {R : Type 0} (l : PromiseLib R) : Type 0 where
  pub initial_suspend : Bool
  pub final_suspend : Bool
  pub return_value : R → l.Promise → Option l.Promise
  pub unhandled_exception : l.Promise → Option l.Promise

abbrev pub suspend_never : Bool
suspend_never = false

-- of first.cpp, for its `std::future<int>`
abbrev pub first_promise : (l : PromiseLib ℤ) → PromiseType l
first_promise l = record {
  initial_suspend = suspend_never;
  final_suspend = suspend_never;
  return_value = λ v p. l.set_value v p;
  unhandled_exception = λ p. l.set_exception p;
}

-- of future_adapter.h, for `std::future<void>` and for `std::future<R>`
abbrev pub std_void_promise : (l : PromiseLib Unit) → PromiseType l
std_void_promise l = record {
  initial_suspend = suspend_never;
  final_suspend = suspend_never;
  return_value = λ _ p. l.set_value tt p;
  unhandled_exception = λ p. l.set_exception p;
}

abbrev pub std_promise : {R : Type 0} (l : PromiseLib R) → PromiseType l
std_promise l = record {
  initial_suspend = suspend_never;
  final_suspend = suspend_never;
  return_value = λ u p. l.set_value u p;
  unhandled_exception = λ p. l.set_exception p;
}

-- of boost_coro.h
abbrev pub boost_void_promise : (l : PromiseLib Unit) → PromiseType l
boost_void_promise l = record {
  initial_suspend = suspend_never;
  final_suspend = suspend_never;
  return_value = λ _ p. l.set_value tt p;
  unhandled_exception = λ p. l.set_exception p;
}

abbrev pub boost_promise : {R : Type 0} (l : PromiseLib R) → PromiseType l
boost_promise l = record {
  initial_suspend = suspend_never;
  final_suspend = suspend_never;
  return_value = λ u p. l.set_value u p;
  unhandled_exception = λ p. l.set_exception p;
}

-- The body: what it is up to its first suspension, and what a resumption makes of it. It is suspended as long as
-- `result` is `none`, and then it has returned a value, or an exception (`some none`) has left it.
pub record Body (I R : Type 0) : Type 1 where
  pub State : Type 0
  pub start : State
  pub step : I → State → State
  pub result : State → Option (Option R)

pub data Frame (S : Type 0) : Type 0 where
  at_initial : Frame S
  in_body : (s : S) → Frame S
  at_final : Frame S

-- A frame that has gone is `none`.
pub record Call (S P : Type 0) : Type 0 where
  pub frame : Option (Frame S)
  pub promise : P

module _ {I R : Type 0} (l : PromiseLib R) (t : PromiseType l) (b : Body I R) where
  -- behind `final_suspend`
  abbrev pub finished : l.Promise → Call b.State l.Promise
  finished p = record { frame = if t.final_suspend then some at_final else none; promise = p }

  -- An exception of `unhandled_exception` itself leaves the resumption.
  abbrev pub after_exception : Option l.Promise → Outcome (Call b.State l.Promise)
  after_exception (some p) = done (finished p)
  after_exception none = fault

  abbrev pub after_return : Option l.Promise → l.Promise → Outcome (Call b.State l.Promise)
  after_return (some p) old = done (finished p)
  after_return none old = after_exception (t.unhandled_exception old)

  abbrev pub settle : Option (Option R) → b.State → l.Promise → Outcome (Call b.State l.Promise)
  settle none s p = done (record { frame = some (in_body s); promise = p })
  settle (some (some r)) s p = after_return (t.return_value r p) p
  settle (some none) s p = after_exception (t.unhandled_exception p)

  -- the call of the function, up to where it gives its future back
  unfoldable pub call : Outcome (Call b.State l.Promise)
  call =
      if t.initial_suspend
      then done (record { frame = some at_initial; promise = l.new })
      else settle (b.result b.start) b.start l.new

  abbrev pub resume : I → Frame b.State → l.Promise → Outcome (Call b.State l.Promise)
  resume i at_initial p = settle (b.result b.start) b.start p
  resume i (in_body s) p = settle (b.result (b.step i s)) (b.step i s) p
  resume i at_final p = fault

  -- Nobody resumes a coroutine whose frame has gone.
  abbrev pub wake : I → Option (Frame b.State) → l.Promise → Outcome (Call b.State l.Promise)
  wake i none p = done (record { frame = none; promise = p })
  wake i (some f) p = resume i f p

  -- the call and then a resumption with each input, the last one first
  unfoldable pub feed : List I → Outcome (Call b.State l.Promise)
  unfolding call
  feed [] = call
  feed (i ∷ is) = feed is >>= λ c. wake i c.frame c.promise

-- what the body is by then
abbrev pub step_on : {I R : Type 0} (b : Body I R) → Option (Option R) → I → b.State → b.State
step_on b none i s = b.step i s
step_on b (some r) i s = s

unfoldable pub plain : {I R : Type 0} (b : Body I R) → List I → b.State
plain b [] = b.start
plain b (i ∷ is) = let s = plain b is in step_on b (b.result s) i s

pub data Line : Type 0 where
  hello : Line
  number : ℤ → Line

-- `f` of first.cpp prints and returns, and `main` prints what it returns.
abbrev pub f : Body Unit ℤ
f = record {
  State = List Line;
  start = hello ∷ [];
  step = λ i s. s;
  result = λ s. some (some (pos 42));
}

-- `get` waits for a future that is not ready, which nothing here would make so.
abbrev pub get_and_print : Bool → Option ℤ → List Line → Outcome (List Line)
get_and_print true (some n) printed = done (number n ∷ printed)
get_and_print true none printed = fault
get_and_print false r printed = fault

unfoldable pub first_main : PromiseLib ℤ → Outcome (List Line)
unfolding call
first_main l = call l (first_promise l) f >>= λ c.
    get_and_print (l.is_ready c.promise) (l.get c.promise) f.start
