-- ===== src/Traditional/Known.antt =====
-- The handles that the port of the thread pool knows, and what `AssociateHandle` adds to them.
use await.Base.{
  ℕ, ◌+◌, ◌<◌, ◌≡◌, ap, sym, ◌∙◌, Bool, to_ℕ, ltb, List, [], ◌∷◌, Option, none, some, total, Every,
  Every-mono, ◌==◌, arith,
}
use await.Pal.Queue.{returns, CompletionQueue, Process}
use await.Pal.Pool.{associate_handle}
use await.Pal.Effects.{handle_at}

-- the handles that the pool's port knows
abbrev pub known : Option CompletionQueue → List (ℕ × ℕ)
known none = []
known (some q) = q.associated

abbrev pub times : ℕ → List (ℕ × ℕ) → ℕ
times h l = total (λ a. to_ℕ (a.0 == h)) l

abbrev pub copies_of : ℕ → List ℕ → ℕ
copies_of h l = total (λ k. to_ℕ (k == h)) l

-- `AssociateHandle` makes just its handle known.
pub associate_handle-known :
    (modes_ok port_ok : Bool) (h fn : ℕ) (p p' : Process)
    → associate_handle modes_ok port_ok h fn p ≡ returns p'
    → known p'.queue ≡ (h, fn) ∷ known p.queue
associate_handle-known modes_ok port_ok h fn p p' e =
    let (q, is_some, same) = handle_at modes_ok port_ok h fn p p' e in
    ap (λ (r : Process). known r.queue) (sym same) ∙ ap (λ o. (h, fn) ∷ known o) (sym is_some)

abbrev pub IsKnown : List (ℕ × ℕ) → ℕ → Type 0
IsKnown l h = 0 < times h l

pub new_handle : (h n : ℕ) → to_ℕ (n == h) + to_ℕ (ltb h n) ≡ to_ℕ (ltb h (n + 1))
new_handle h n = ground arith

itself : (h : ℕ) → to_ℕ (h == h) ≡ 1
itself h = ground arith

-- What is known stays known when one more handle is.
pub still_known :
    (l l' : List (ℕ × ℕ)) (h fn : ℕ) (hs : List ℕ)
    → l' ≡ (h, fn) ∷ l
    → Every (IsKnown l) hs
    → Every (IsKnown l') hs
still_known l l' h fn hs e k =
    Every-mono (IsKnown l) (IsKnown l') (λ x less. omega (arith, less, ap (times x) e)) hs k

pub now_known : (l l' : List (ℕ × ℕ)) (h fn : ℕ) → l' ≡ (h, fn) ∷ l → IsKnown l' h
now_known l l' h fn e = omega (arith, ap (times h) e, itself h)
