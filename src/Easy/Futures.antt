-- ===== src/Easy/Futures.antt =====
-- The awaiter of boost_coro.h and the completion handler of use_boost_future.h. Boost's promises and futures
-- are a parameter: a future once its promise has been given a value or an exception, or nothing yet.
use await.Base.{ℕ, ◌≡◌, Bool, true, false, Option, none, some, if◌then◌else◌}

pub record BoostFutures : Type 1 where
  pub Future : Type 0
  pub waiting : Future
  pub set_value : ℕ → Future
  pub set_exception : Future
  pub is_ready : Future → Bool
  pub get : Future → Option ℕ  -- `none` is the exception
  pub waiting-is_ready : is_ready waiting ≡ false
  pub value-is_ready : (n : ℕ) → is_ready (set_value n) ≡ true
  pub exception-is_ready : is_ready set_exception ≡ true
  pub value-get : (n : ℕ) → get (set_value n) ≡ some n
  pub exception-get : get set_exception ≡ none

-- `operator()` of the handler for an error code and a size
unfoldable pub complete_size : (b : BoostFutures) → Bool → ℕ → b.Future
complete_size b ec n = if ec then b.set_exception else b.set_value n

-- `Awaiter`; `output` is `none` as long as nothing was moved into it.
pub record Awaiter (b : BoostFutures) : Type 0 where
  pub input : b.Future
  pub output : Option b.Future

abbrev pub await_ready : (b : BoostFutures) → Awaiter b → Bool × Awaiter b
await_ready b a =
    if b.is_ready a.input then (true, record a { output = some a.input }) else (false, a)

-- the continuation that `await_suspend` gives to `then`, before it resumes the coroutine
abbrev pub continued : (b : BoostFutures) → b.Future → Awaiter b → Awaiter b
continued b result_future a = record a { output = some result_future }

abbrev pub get_output : (b : BoostFutures) → Option b.Future → Option ℕ
get_output b (some f) = b.get f
get_output b none = none

abbrev pub await_resume : (b : BoostFutures) → Awaiter b → Option ℕ
await_resume b a = get_output b a.output

-- after `await_ready`, suspended or not
abbrev pub resumed : (b : BoostFutures) → b.Future → Bool × Awaiter b → Option ℕ
resumed b result (true, a) = await_resume b a
resumed b result (false, a) = await_resume b (continued b result a)

-- `co_await` on the future of a call that completes with `result`, before it is asked or after
unfoldable pub co_await : (b : BoostFutures) → Bool → b.Future → Option ℕ
co_await b early result =
    resumed b result
      (await_ready b (record { input = if early then result else b.waiting; output = none }))

pub await_value :
    (b : BoostFutures) (early : Bool) (n : ℕ) → co_await b early (complete_size b false n) ≡ some n
unfolding co_await complete_size
await_value b true n = rw (b.value-is_ready n, b.value-get n)
await_value b false n = rw (b.waiting-is_ready, b.value-get n)

pub await_exception :
    (b : BoostFutures) (early : Bool) (n : ℕ) → co_await b early (complete_size b true n) ≡ none
unfolding co_await complete_size
await_exception b true n = rw (b.exception-is_ready, b.exception-get)
await_exception b false n = rw (b.waiting-is_ready, b.exception-get)
