-- ===== src/Awaitable/Reads.antt =====
-- What the reader of Awaitable.cpp counts.
use await.Base.{
  ℕ, ◌+◌, ◌-◌, ◌*◌, ◌<◌, ◌≡◌, Bool, true, false, Bool-cases, inl, inr, List, [], ◌∷◌, ltb, ltb→lt,
  if◌then◌else◌, Outcome, done, fault, no_fuel, subst, arith,
}
use await.Pal.{WsaResult, socket_error, io_pending, reader_size}
use await.Awaitable.{
  Point, at_connect, at_read, finished, Reader, Suspend, goes_on, suspends, breaks, read_suspend,
  tcp_reader, after_read, read_or, read_loop, resume_at, resume,
}

-- the reader after some completions, none of which ended the program
pub data Reach (sync : Bool) (total : ℕ) : Reader → Type 0 where
  begins : Reach sync total (tcp_reader total)
  goes :
      {r r' : Reader} (err : Bool) (bytes : ℕ) (results : List WsaResult)
      → Reach sync total r
      → resume err bytes sync results r ≡ done r'
      → Reach sync total r'

-- whether the coroutine still wants bytes at a point
abbrev pub Wants : Point → ℕ → Type 0
Wants at_connect left = Unit
Wants at_read left = 0 < left
Wants finished left = left ≡ 0

pub record Counts (total : ℕ) (r : Reader) : Type 0 where
  pub left : r.total ≡ total - reader_size * r.reads
  pub before : reader_size * r.reads < total + reader_size
  pub wants : Wants r.point r.total

-- What holds of a result, if there is one.
IfDone : Outcome Reader → (Reader → Type 0) → Type 0
IfDone (done r) P = P r
IfDone fault P = Unit
IfDone no_fuel P = Unit

IfDone→holds :
    (o : Outcome Reader) (P : Reader → Type 0) (r : Reader) → IfDone o P → o ≡ done r → P r
unfolding IfDone
IfDone→holds o P r h e = subst (λ o. IfDone o P) e h

not_left : (n : ℕ) → ltb 0 n ≡ false → n ≡ 0
not_left n h = ground arith

module _ (sync : Bool) (total : ℕ) where
  read_or-Counts :
      (s : Suspend) (next : Outcome Reader) (r : Reader)
      → r.total ≡ total - reader_size * r.reads
      → reader_size * r.reads < total + reader_size
      → 0 < r.total
      → IfDone next (Counts total)
      → IfDone (read_or s next r) (Counts total)
  unfolding IfDone
  read_or-Counts goes_on next r left before some h = h
  read_or-Counts suspends next r left before some h = record {
    left = left;
    before = before;
    wants = some;
  }
  read_or-Counts breaks next r left before some h = tt

  test-Counts :
      (o : Outcome Reader) (r : Reader)
      → r.total ≡ total - reader_size * r.reads
      → reader_size * r.reads < total + reader_size
      → (0 < r.total → IfDone o (Counts total))
      → IfDone (if ltb 0 r.total then o else done (record r { point = finished })) (Counts total)
  unfolding IfDone
  test-Counts o r left before h =
      elim (Bool-cases (ltb 0 r.total))
        as (λ _.
          IfDone (if ltb 0 r.total then o else done (record r { point = finished }))
            (Counts total)) [
              | inl e ↦ rw e (h (ltb→lt 0 r.total e))
              | inr e ↦ rw e (record { left = left; before = before; wants = not_left r.total e })
            ]

  read_loop-Counts :
      (results : List WsaResult) (r : Reader)
      → r.total ≡ total - reader_size * r.reads
      → reader_size * r.reads < total + reader_size
      → IfDone (read_loop sync results r) (Counts total)
  unfolding IfDone
  read_loop-Counts [] r left before = test-Counts _ r left before (λ some.
      read_or-Counts (read_suspend sync (socket_error io_pending)) fault r left before some tt)
  read_loop-Counts (result ∷ results) r left before = test-Counts _ r left before (λ some.
      read_or-Counts (read_suspend sync result) _ r left before some
        (read_loop-Counts results (after_read r) (omega (arith, left)) (omega (arith, left, some))))

  resume_at-Counts :
      (p : Point) (err : Bool) (bytes : ℕ) (results : List WsaResult) (r : Reader)
      → Wants p r.total
      → r.total ≡ total - reader_size * r.reads
      → reader_size * r.reads < total + reader_size
      → IfDone (resume_at p err bytes sync results r) (Counts total)
  unfolding IfDone
  resume_at-Counts at_connect true bytes results r wants left before = tt
  resume_at-Counts at_connect false bytes results r wants left before =
      read_loop-Counts results r left before
  resume_at-Counts at_read err bytes results r wants left before =
      read_loop-Counts results (after_read r) (omega (arith, left)) (omega (arith, left, wants))
  resume_at-Counts finished err bytes results r wants left before = tt

-- In every run of a reader of Awaitable.cpp that no panic ends, whatever the calls bring and
-- whether or not they fail: each read that is over counts as a whole buffer; while a read is
-- under way fewer are over than fill `total`; and when the reader has ended they fill it, the
-- last one by less than a whole buffer too much.
pub reader-Counts : {sync : Bool} {total : ℕ} {r : Reader} → Reach sync total r → Counts total r
unfolding resume
reader-Counts begins = record { left = omega arith; before = omega arith; wants = tt }
reader-Counts {sync = sync} {total = total} {r = r'} (goes {r = r} err bytes results run e) =
    let h = reader-Counts run in
    IfDone→holds (resume_at r.point err bytes sync results r) (Counts total) r'
      (resume_at-Counts sync total r.point err bytes results r h.wants h.left h.before) e
