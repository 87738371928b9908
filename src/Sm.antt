-- ===== src/Sm.antt =====
-- 2018_CppCon/src/sm.h: the binary search as a handcrafted state machine, one probe to a `run`.
-- A pointer into the vector is its index. `prefetch` has no effect on the result and is left out.
-- Subtraction of `size_t` wraps, as `sub64` writes out.
pub mod Run
pub mod Single
pub mod Multi
use await.Base.{
  ℕ, zero, suc, ◌+◌, ◌-◌, ◌/◌, ◌%◌, ◌^◌, Bool, true, false, none, some, List, ltb, ◌==◌,
  if◌then◌else◌, get_elem?, ℤ, pos, ltb_ℤ, eqb_ℤ, Outcome, done, fault, no_fuel, ◌>>=◌,
}

abbrev pub sub64 : ℕ → ℕ → ℕ
sub64 a b = (a + 2 ^ 64 - b) % 2 ^ 64

-- `Frame::State`
pub data State : Type 0 where
  keep_going found not_found empty : State

pub record Frame : Type 0 where
  pub first : ℕ
  pub last : ℕ
  pub middle : ℕ
  pub len : ℕ
  pub half : ℕ
  pub val : ℤ
  pub state : State

-- a value-initialised frame, as `std::vector<Frame>(n)` makes them
abbrev pub blank : Frame
blank = record { first = 0; last = 0; middle = 0; len = 0; half = 0; val = pos 0; state = empty }

-- `state == 0`
abbrev pub going : State → Bool
going keep_going = true
going _ = false

-- `state == FOUND`
abbrev pub is_found : State → Bool
is_found found = true
is_found _ = false

-- `Frame::init`
unfoldable pub init : Frame → ℕ → ℕ → ℤ → Frame
init fr first last key =
    let len = sub64 last first in
    let fr' = record fr { val = key; first = first; last = last; len = len } in
    if len == 0
    then record fr' { state = not_found }
    else record fr' { half = len / 2; middle = first + len / 2; state = keep_going }

-- the rest of `Frame::run`, once `*middle` is read
unfoldable pub probe : ℤ → Frame → Bool × Frame
probe x fr =
    let less = ltb_ℤ x fr.val in
    let first = if less then fr.middle + 1 else fr.first in
    let len = if less then sub64 (sub64 fr.len fr.half) 1 else fr.half in
    let fr' = record fr { first = first; len = len } in
    if eqb_ℤ x fr.val
    then (true, record fr' { state = found })
    else if ltb 0 len
    then (false, record fr' { half = len / 2; middle = first + len / 2 })
    else (true, record fr' { state = not_found })

module _ (v : List ℤ) where
  -- `Frame::run`
  unfoldable pub run : Frame → Outcome (Bool × Frame)
  unfolding probe
  run fr = elim (get_elem? v fr.middle) [ none ↦ fault | some x ↦ done (probe x fr) ]

  -- `while (f.state == 0) f.run();`, with fuel
  unfoldable pub sm_loop : ℕ → Frame → Outcome Frame
  unfolding run
  sm_loop zero fr = no_fuel
  sm_loop (suc fuel) fr = elim (going fr.state) [
    | false ↦ done fr
    | true ↦ elim (run fr) [
      | done (finished, fr') ↦ sm_loop fuel fr'
      | fault ↦ fault
      | no_fuel ↦ no_fuel
    ]
  ]

  unfoldable pub sm_binary_search : ℕ → ℕ → ℤ → Outcome Bool
  unfolding sm_loop init
  sm_binary_search first last key =
      sm_loop (suc (last - first)) (init blank first last key) >>= λ fr. done (is_found fr.state)
