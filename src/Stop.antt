-- ===== src/Stop.antt =====
-- 2017_CppCon/live/stop1.cpp: a coroutine that waits for a timer again and again, and is woken with an
-- error when its callback is destroyed and was not called. The waits are of one second, so `await_ready` is
-- false. A callback object is whether its `coro` is set, as all have the same coroutine.
pub mod Clock
pub mod Main
use await.Base.{ℕ, ◌+◌, ◌≡◌, Bool, true, false, List, [], ◌∷◌, ◌++◌, ◌==◌, if◌then◌else◌}

-- `std::error_code`
pub data ErrorCode : Type 0 where
  success : ErrorCode
  operation_aborted : ErrorCode
  other : (code : ℕ) → ErrorCode

-- the conversion to `bool`
abbrev pub is_error : ErrorCode → Bool
is_error success = false
is_error operation_aborted = true
is_error (other code) = true

pub data Line : Type 0 where
  tick : Line
  tock : Line
  caught : (ec : ErrorCode) → Line

-- where `noisy_clock` is suspended
pub data Point : Type 0 where
  before_tick : Point
  before_tock : Point
  finished : Point

-- The coroutine, what it has printed, the callback objects that exist, and how often it was resumed when
-- it had ended.
pub record World : Type 0 where
  pub point : Point
  pub printed : List Line
  pub callbacks : List Bool
  pub bad_resumes : ℕ

-- `await_suspend`: the new callback holds the coroutine
abbrev pub wait_at : Point → World → World
wait_at p w = record w { point = p; callbacks = w.callbacks ++ (true ∷ []) }

-- `puts`, and the `catch`
abbrev pub say : Line → World → World
say line w = record w { printed = w.printed ++ (line ∷ []) }

-- `resume` with `ec` in the awaiter: `await_resume` throws if there is an error
abbrev pub after_wait : ErrorCode → Line → Point → World → World
after_wait ec line next w =
    if is_error ec
    then record (say (caught ec) w) { point = finished }
    else wait_at next (say line w)

abbrev pub resume_at : Point → ErrorCode → World → World
resume_at before_tick ec w = after_wait ec tick before_tock w
resume_at before_tock ec w = after_wait ec tock before_tick w
resume_at finished ec w = record w { bad_resumes = w.bad_resumes + 1 }

unfoldable pub resume : ErrorCode → World → World
resume ec w = resume_at w.point ec w

-- `noisy_clock` up to its first suspension
unfoldable pub noisy_clock : World
noisy_clock =
    wait_at before_tick
      (record { point = before_tick; printed = []; callbacks = []; bad_resumes = 0 })

-- `~Callback`
abbrev pub destroyed : Bool → World → World
destroyed coro w = if coro then resume operation_aborted w else w

-- The timer moves its callback, calls the one that holds the coroutine, or destroys one.
pub data Step : World → World → Type 0 where
  moves :
      {w : World} (before after : List Bool) (coro : Bool)
      → w.callbacks ≡ before ++ (coro ∷ after)
      → Step w (record w { callbacks = coro ∷ before ++ (false ∷ after) })
  calls :
      {w : World} (before after : List Bool) (ec : ErrorCode)
      → w.callbacks ≡ before ++ (true ∷ after)
      → Step w (resume ec (record w { callbacks = before ++ (false ∷ after) }))
  destroys :
      {w : World} (before after : List Bool) (coro : Bool)
      → w.callbacks ≡ before ++ (coro ∷ after)
      → Step w (destroyed coro (record w { callbacks = before ++ after }))
