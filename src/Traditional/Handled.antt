-- ===== src/Traditional/Handled.antt =====
-- What each handler of a reader does to the reader and to the tracker.
use await.Base.{
  ℕ, ◌+◌, ◌≡◌, refl, subst, Bool, true, false, ◌⊎◌, inl, inr, List, [], ◌∷◌, arith, if◌then◌else◌,
}
use await.Pal.{
  WsaResult, reader_size, receive, Called, again, under_way, invoked, WorkTracker, release_work,
}
use await.Traditional.{
  Reader, conn_read, on_error, on_complete, after_call, connect_loop, on_connect, count, is_over,
  read_loop, on_read,
}

-- A reader in the middle of a handler, or between two.
abbrev pub owes : Reader → ℕ
owes r = r.connecting + r.reading + r.deleted

-- What a handler does to the tracker is to release one unit when it deletes the reader.
pub record Handled (r : Reader) (t : WorkTracker) (out : Reader × WorkTracker) : Type 0 where
  pub one_more : owes out.0 ≡ owes r + 1
  pub released :
      ((out.0.deleted ≡ r.deleted) × (out.1 ≡ t))
      ⊎ ((out.0.deleted ≡ r.deleted + 1) × (out.1 ≡ release_work t))

conn_read-cases :
    (sync : Bool) (result : WsaResult) (r : Reader)
    → let (called, r') = conn_read sync result r in
      (r'.deleted ≡ r.deleted)
      × (r'.connecting ≡ r.connecting)
      × (r'.reading ≡ r.reading + elim called [ again ↦ 0 | under_way ↦ 1 | invoked ↦ 0 ])
unfolding conn_read receive
conn_read-cases sync result r = ground arith

after_call-Handled :
    (called : Called) (next : Reader × WorkTracker) (r r' : Reader) (t : WorkTracker)
    → (r'.deleted ≡ r.deleted)
      × (r'.connecting ≡ r.connecting)
      × (r'.reading ≡ r.reading + elim called [ again ↦ 0 | under_way ↦ 1 | invoked ↦ 0 ])
    → Handled r' t next
    → Handled r t (after_call called next r' t)
unfolding on_error
after_call-Handled again next r r' t (d, c, e) h = record {
  one_more = omega (arith, h.one_more, d, c, e);
  released =
      subst
        (λ k.
          ((next.0.deleted ≡ k) × (next.1 ≡ t))
          ⊎ ((next.0.deleted ≡ k + 1) × (next.1 ≡ release_work t)))
        d h.released;
}
after_call-Handled under_way next r r' t (d, c, e) h = record {
  one_more = omega (arith, d, c, e);
  released = inl (d, refl);
}
after_call-Handled invoked next r r' t (d, c, e) h = record {
  one_more = omega (arith, d, c, e);
  released = inr (omega (arith, d), refl);
}

connect_loop-Handled :
    (sync : Bool) (results : List WsaResult) (r : Reader) (t : WorkTracker)
    → Handled r t (connect_loop sync results r t)
unfolding conn_read receive
connect_loop-Handled sync [] r t = record { one_more = omega arith; released = inl (refl, refl) }
connect_loop-Handled sync (result ∷ results) r t =
    let (called, r') = conn_read sync result r in
    after_call-Handled called (connect_loop sync results r' t) r r' t
      (conn_read-cases sync result r) (connect_loop-Handled sync results r' t)

complete-Handled :
    (bytes : ℕ) (r : Reader) (t : WorkTracker) → Handled r t (on_complete (count bytes r) t)
unfolding on_complete
complete-Handled bytes r t = record { one_more = omega arith; released = inr (refl, refl) }

-- `count` touches nothing that `Handled` speaks of.
unless :
    (over : Bool) (bytes : ℕ) (r : Reader) (t : WorkTracker) (out : Reader × WorkTracker)
    → Handled r t out
    → Handled r t (if over then on_complete (count bytes r) t else out)
unless true bytes r t out h = complete-Handled bytes r t
unless false bytes r t out h = h

read_loop-Handled :
    (sync : Bool) (results : List WsaResult) (bytes : ℕ) (r : Reader) (t : WorkTracker)
    → Handled r t (read_loop sync results bytes r t)
unfolding conn_read receive
read_loop-Handled sync [] bytes r t =
    unless (is_over bytes (count bytes r)) bytes r t _
      (record { one_more = omega arith; released = inl (refl, refl) })
read_loop-Handled sync (result ∷ results) bytes r t =
    let (called, r'') = conn_read sync result (count bytes r) in
    unless (is_over bytes (count bytes r)) bytes r t _ (
      after_call-Handled called (read_loop sync results reader_size r'' t) r r'' t
        (conn_read-cases sync result (count bytes r))
        (read_loop-Handled sync results reader_size r'' t))

error-Handled : (r : Reader) (t : WorkTracker) → Handled r t (on_error r t)
unfolding on_error
error-Handled r t = record { one_more = omega arith; released = inr (refl, refl) }

pub on_connect-Handled :
    (sync ec : Bool) (results : List WsaResult) (r : Reader) (t : WorkTracker)
    → Handled r t (on_connect sync ec results r t)
unfolding on_connect on_error
on_connect-Handled sync true results r t = error-Handled r t
on_connect-Handled sync false results r t = connect_loop-Handled sync results r t

pub on_read-Handled :
    (sync ec : Bool) (bytes : ℕ) (results : List WsaResult) (r : Reader) (t : WorkTracker)
    → Handled r t (on_read sync ec bytes results r t)
unfolding on_read on_error
on_read-Handled sync true bytes results r t = error-Handled r t
on_read-Handled sync false bytes results r t = read_loop-Handled sync results bytes r t
