-- ===== src/Pal/Ownership.antt =====
-- Who owns the handles that the program has opened.
use await.Base.{
  ℕ, ◌+◌, ◌≡◌, ap, subst, Bool, true, false, to_ℕ, List, [], ◌∷◌, ◌++◌, Option, none, some, total,
  total_split, total-append, ltb, ◌==◌, done, arith,
}
use await.Pal.Sockets.{
  Socket, Process, new_socket, move_from, assign_to, assigns_from_left, close_handle, Step, creates,
  moves, assigns, destroys,
}

abbrev pub is : ℕ → Option ℕ → ℕ
is h none = 0
is h (some k) = to_ℕ (k == h)

abbrev pub owns : ℕ → Socket → ℕ
owns h s = is h s.handle

-- how many sockets own the handle, and how often it was closed
abbrev pub copies : ℕ → Process → ℕ
copies h p = total (owns h) p.sockets + total (λ k. to_ℕ (k == h)) p.closed

pub data Reach : Process → Type 0 where
  begins : Reach (record { sockets = []; closed = []; opened = 0 })
  goes : {p p' : Process} → Reach p → Step p p' → Reach p'

-- Each handle that was opened has one owner or was closed once.
abbrev pub Owned : Process → Type 0
Owned p = (h : ℕ) → copies h p ≡ to_ℕ (ltb h p.opened)

new_handle : (h n : ℕ) → to_ℕ (n == h) + to_ℕ (ltb h n) ≡ to_ℕ (ltb h (n + 1))
new_handle h n = ground arith

create-Owned :
    (ok fast_path no_delay : Bool) (p p' : Process)
    → Owned p
    → new_socket ok fast_path no_delay p ≡ done p'
    → Owned p'
unfolding new_socket
create-Owned true true true p p' o e =
    let same : record p {
      sockets = record { handle = some p.opened } ∷ p.sockets;
      opened = p.opened + 1;
    }
        ≡ p' =
      cc in
    subst Owned same (λ h. omega (arith, o h, new_handle h p.opened))
create-Owned true true false p p' o e = absurd (cc)
create-Owned true false no_delay p p' o e = absurd (cc)
create-Owned false fast_path no_delay p p' o e = absurd (cc)

close-total :
    (h : ℕ) (o : Option ℕ) (closed : List ℕ)
    → total (λ k. to_ℕ (k == h)) (close_handle o closed)
      ≡ is h o + total (λ k. to_ℕ (k == h)) closed
close-total h none closed = omega arith
close-total h (some k) closed = omega arith

assign_to-total :
    (h : ℕ) (o : Option ℕ) (rhs lhs' rhs' : Socket)
    → assign_to o rhs ≡ done (lhs', rhs')
    → owns h lhs' + owns h rhs' ≡ is h o + owns h rhs
assign_to-total h (some k) rhs lhs' rhs' e = absurd (cc)
assign_to-total h none rhs lhs' rhs' e =
    let one : record { handle = rhs.handle } ≡ lhs' = cc in
    let two : record { handle = none } ≡ rhs' = cc in
    omega (arith, ap (owns h) one, ap (owns h) two)

-- The part of the list behind the first of the two sockets.
two_split :
    (f : Socket → ℕ) (before between after : List Socket) (x y : Socket)
    → total f (before ++ (x ∷ (between ++ (y ∷ after))))
      ≡ total f before + f x + total f between + f y + total f after
two_split f before between after x y = omega (
  arith,
  total-append f before (x ∷ (between ++ (y ∷ after))),
  total-append f between (y ∷ after),
)

Step-Owned : {p p' : Process} → Step p p' → Owned p → Owned p'
Step-Owned {p = p} {p' = p'} (creates ok fast_path no_delay e) o =
    create-Owned ok fast_path no_delay p p' o e
Step-Owned (moves before after rhs e) o = λ h. omega (
  arith,
  o h,
  ap (total (owns h)) e,
  total_split (owns h) before rhs after,
  total_split (owns h) before (move_from rhs).1 after,
)
Step-Owned (assigns before between after lhs rhs lhs' rhs' e f) o = λ h. omega (
  arith,
  o h,
  ap (total (owns h)) e,
  assign_to-total h lhs.handle rhs lhs' rhs' f,
  two_split (owns h) before between after lhs rhs,
  two_split (owns h) before between after lhs' rhs',
)
Step-Owned (assigns_from_left before between after lhs rhs lhs' rhs' e f) o = λ h. omega (
  arith,
  o h,
  ap (total (owns h)) e,
  assign_to-total h lhs.handle rhs lhs' rhs' f,
  two_split (owns h) before between after rhs lhs,
  two_split (owns h) before between after rhs' lhs',
)
Step-Owned {p = p} (destroys before after s e) o = λ h. omega (
  arith,
  o h,
  ap (total (owns h)) e,
  total_split (owns h) before s after,
  close-total h s.handle p.closed,
)

-- In every run of a program that makes, moves, assigns and destroys sockets, and that no panic ends: each
-- handle that was opened has just one owner and was not closed, or has none and was closed once; and no
-- other handle is owned or closed.
pub sockets-Owned : {p : Process} → Reach p → Owned p
sockets-Owned begins = λ h. ground arith
sockets-Owned (goes r s) = Step-Owned s (sockets-Owned r)
