-- ===== src/Gen/Lives/Frames.antt =====
-- Frames at an address, and what storing and removing one does to them.
use await.Base.{
  ℕ, ◌+◌, ◌<◌, ◌≡◌, refl, ap, sym, ◌∙◌, Bool-cases, inl, inr, to_ℕ, List, [], ◌∷◌, some, ◌==◌,
  arith, if◌then◌else◌,
}
use await.Gen.{Frame}
use await.Gen.Memory.{find, store, remove}
use await.Gen.Lives.{frames_at}

pub find_lem :
    (a : ℕ) (l : List (ℕ × Frame)) → 0 < frames_at a l → (fr : Frame) × (find a l ≡ some fr)
find_lem a [] h = absurd (omega (arith, h))
find_lem a (b ∷ bs) h = elim (Bool-cases (b.0 == a)) [
  | inl e ↦ (b.1, rw e refl)
  | inr e ↦ (let (fr, found) = find_lem a bs (omega (arith, h, ap to_ℕ e)) in (fr, rw e found))
]

pub store-frames :
    (x a : ℕ) (fr : Frame) (l : List (ℕ × Frame)) → frames_at x (store a fr l) ≡ frames_at x l
store-frames x a fr [] = refl
store-frames x a fr (b ∷ bs) = elim (Bool-cases (b.0 == a)) [
  | inl e ↦
      rw e
        (let same : b.0 ≡ a = ground arith in ap (λ k. to_ℕ (k == x) + frames_at x bs) (sym same))
  | inr e ↦ rw e (omega (arith, store-frames x a fr bs))
]

pub remove-frames :
    (x a : ℕ) (fr : Frame) (l : List (ℕ × Frame))
    → find a l ≡ some fr
    → frames_at x (remove a l) + to_ℕ (a == x) ≡ frames_at x l
remove-frames x a fr [] h = absurd (cc)
remove-frames x a fr (b ∷ bs) h = elim (Bool-cases (b.0 == a)) [
  | inl e ↦ rw e (let same : b.0 ≡ a = ground arith in omega (arith, ap (λ k. to_ℕ (k == x)) same))
  | inr e ↦ rw e (
      let rest : find a bs ≡ some fr = ap (λ t. if t then some b.1 else find a bs) (sym e) ∙ h in
      omega (arith, remove-frames x a fr bs rest))
]
