-- ===== src/Pal/Sockets.antt =====
-- `OsTcpSocket` of 2015_CppCon/SuperLean/PAL.h and PAL.cpp as the owner of a handle: its constructors, the
-- assignment and the destructor. `WSASocketW` gives a new handle or fails; a `panic_if` ends the program,
-- which is a `fault`. A socket that is moved from holds the invalid handle.
use await.Base.{
  ℕ, ◌+◌, ◌≡◌, Bool, true, false, List, ◌∷◌, ◌++◌, Option, none, some, Outcome, done, fault,
}

-- `handle_`; `none` is `kInvalidSocket`
pub record Socket : Type 0 where
  pub handle : Option ℕ

-- the sockets that exist, the handles that were closed, and how many `WSASocketW` has given
pub record Process : Type 0 where
  pub sockets : List Socket
  pub closed : List ℕ
  pub opened : ℕ

-- The default constructor, with the status of the call and of the two options; the handle is the number of
-- those before it.
unfoldable pub new_socket : Bool → Bool → Bool → Process → Outcome Process
new_socket true true true p =
    done
      (record p { sockets = record { handle = some p.opened } ∷ p.sockets; opened = p.opened + 1 })
new_socket true true false p = fault
new_socket true false no_delay p = fault
new_socket false fast_path no_delay p = fault

-- The move constructor: the new socket, and what is left of the old one.
abbrev pub move_from : Socket → Socket × Socket
move_from rhs = (record { handle = rhs.handle }, record { handle = none })

-- `operator=`, for two different sockets
abbrev pub assign_to : Option ℕ → Socket → Outcome (Socket × Socket)
assign_to (some h) rhs = fault
assign_to none rhs = done (record { handle = rhs.handle }, record { handle = none })

abbrev pub move_assign : Socket → Socket → Outcome (Socket × Socket)
move_assign lhs rhs = assign_to lhs.handle rhs

-- the destructor
abbrev pub close_handle : Option ℕ → List ℕ → List ℕ
close_handle (some h) closed = h ∷ closed
close_handle none closed = closed

-- One operation of the program on its sockets.
pub data Step : Process → Process → Type 0 where
  creates :
      {p p' : Process} (ok fast_path no_delay : Bool)
      → new_socket ok fast_path no_delay p ≡ done p'
      → Step p p'
  moves :
      {p : Process} (before after : List Socket) (rhs : Socket)
      → p.sockets ≡ before ++ (rhs ∷ after)
      → Step p (record p { sockets = (move_from rhs).0 ∷ (before ++ ((move_from rhs).1 ∷ after)) })
  assigns :
      {p : Process} (before between after : List Socket) (lhs rhs lhs' rhs' : Socket)
      → p.sockets ≡ before ++ (lhs ∷ (between ++ (rhs ∷ after)))
      → move_assign lhs rhs ≡ done (lhs', rhs')
      → Step p (record p { sockets = before ++ (lhs' ∷ (between ++ (rhs' ∷ after))) })
  assigns_from_left :
      {p : Process} (before between after : List Socket) (lhs rhs lhs' rhs' : Socket)
      → p.sockets ≡ before ++ (rhs ∷ (between ++ (lhs ∷ after)))
      → move_assign lhs rhs ≡ done (lhs', rhs')
      → Step p (record p { sockets = before ++ (rhs' ∷ (between ++ (lhs' ∷ after))) })
  destroys :
      {p : Process} (before after : List Socket) (s : Socket)
      → p.sockets ≡ before ++ (s ∷ after)
      → Step p (record p { sockets = before ++ after; closed = close_handle s.handle p.closed })
