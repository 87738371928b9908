-- ===== src/Launch/Port.antt =====
-- The port that a server listens on.
use await.Base.{
  ℕ, ◌-◌, ◌^◌, ◌<◌, ◌≡◌, ltb, if◌then◌else◌, ℤ, pos, negsuc, inl, inr, Bool-cases, arith,
}
use await.Launch.{mod_short, to_short}

mod_short-lt : (z : ℤ) → mod_short z < 2 ^ 16
mod_short-lt (pos n) = omega arith
mod_short-lt (negsuc n) = omega arith

wrap_lem :
    (r : ℕ) → r < 2 ^ 16 → mod_short (if ltb r (2 ^ 15) then pos r else negsuc (2 ^ 16 - 1 - r)) ≡ r
wrap_lem r h = elim (Bool-cases (ltb r (2 ^ 15))) [
  | inl t ↦ rw t (omega (arith, h))
  | inr f ↦ rw f (omega (arith, h))
]

-- Through `short` and back to an unsigned short, a number keeps its value modulo 2^16.
pub mod_short-to_short : (z : ℤ) → mod_short (to_short z) ≡ mod_short z
mod_short-to_short z = wrap_lem (mod_short z) (mod_short-lt z)
