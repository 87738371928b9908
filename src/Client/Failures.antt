-- ===== src/Client/Failures.antt =====
-- Failed operations, the connection, and the closing of the socket keep the protocol.
use await.Base.{
  ℕ, ◌+◌, ◌≤◌, ◌≡◌, refl, Bool, false, List, [], ◌∷◌, ◌++◌, total, total-append, Every, Every-mono,
  Every-append, arith,
}
use await.Client.{
  Block, Op, connecting, reading, writing, closing, Session, World, act, handle_connect,
  close_socket, stop,
}
use await.Client.Valid.{is_connect, is_read, is_write, Fits, Ledger, IsValid}
use await.Client.Swap.{stay, Rest, only_closing}

-- Closing the socket changes no pointer.
Fits-is_open :
    (s : Session) (m : Block → List ℕ) (f : List (List ℕ)) (connected : Bool) (op : Op)
    → Fits s m f op
    → Fits (record s { is_open = connected }) m f op
Fits-is_open s m f connected connecting h = h
Fits-is_open s m f connected (reading b n) h = h
Fits-is_open s m f connected (writing b n) h = h
Fits-is_open s m f connected closing h = h

one_kind : (op : Op) → is_connect op + is_read op + is_write op ≤ 1
one_kind connecting = omega arith
one_kind (reading b n) = omega arith
one_kind (writing b n) = omega arith
one_kind closing = omega arith

module _ {size : ℕ} {w : World} where
  -- Only what is under way, the failures and the state of the socket change.
  recount :
      (v : IsValid size w) (connected : Bool) (pending : List Op) (rf wf failures : ℕ)
      → total is_read pending + rf ≡ total is_read w.pending + v.ledger.read_failed
      → total is_write pending + wf ≡ total is_write w.pending + v.ledger.write_failed
      → total is_connect pending ≤ total is_connect w.pending
      → rf + wf + v.ledger.unconnected ≤ failures + total is_connect pending
      → Every (Fits w.session w.memory v.ledger.in_flight) pending
      → IsValid size (record w {
        pending = pending;
        session = record w.session { is_open = connected };
        failures = failures;
      })
  recount v connected pending rf wf failures er ew ec ef fits =
      let l = v.ledger in
      record {
        ledger = record {
          some_size = l.some_size;
          unconnected = l.unconnected;
          read_failed = rf;
          waiting = l.waiting;
          write_failed = wf;
          idle = l.idle;
          in_flight = l.in_flight;
          held = l.held;
          read_side = omega (arith, l.read_side, er);
          write_side = omega (arith, l.write_side, ew);
          connect_side = omega (arith, l.connect_side, ec);
          count = omega (arith, l.count, ew);
          failing = ef;
          block_size = l.block_size;
          lengths = l.lengths;
          apart = l.apart;
          fits =
              Every-mono _ _ (Fits-is_open w.session w.memory l.in_flight connected) pending fits;
          number_in_flight = omega (arith, l.number_in_flight, ew);
          number_held = l.number_held;
          holds = l.holds;
          stream = l.stream;
          written = l.written;
          read = l.read;
        };
        not_both = v.not_both;
      }

  -- An operation has failed, and its handler does nothing.
  pub fail-IsValid :
      (v : IsValid size w) (op : Op) (rest : List Op)
      → Rest size w v.ledger op rest
      → IsValid size (record w { pending = rest ++ []; failures = w.failures + 1 })
  fail-IsValid v op rest r =
      let l = v.ledger in
      stay (
        recount v w.session.is_open rest (l.read_failed + is_read op) (l.write_failed + is_write op)
          (w.failures + 1) (omega (arith, r.reads)) (omega (arith, r.writes))
          (omega (arith, r.connects)) (omega (arith, l.failing, r.connects, one_kind op))
          r.fits_rest)

  pub connected-IsValid :
      (l : Ledger size w) (rest : List Op)
      → Rest size w l connecting rest
      → IsValid size (act (handle_connect false false) (record w { pending = rest }))
  unfolding handle_connect
  connected-IsValid l rest r =
      let s = w.session in
      let ops : List Op =
        writing s.write_data s.block_size ∷ reading s.read_data s.block_size ∷ [] in
      let no_reads : total is_read rest ≡ 0 =
        omega (arith, l.read_side, l.connect_side, r.reads, r.connects) in
      let no_writes : total is_write rest ≡ 0 =
        omega (arith, l.write_side, l.connect_side, r.writes, r.connects) in
      let no_connects : total is_connect rest ≡ 0 =
        omega (arith, l.read_side, l.connect_side, r.connects) in
      record {
        ledger = record {
          some_size = l.some_size;
          unconnected = 0;
          read_failed = 0;
          waiting = 0;
          write_failed = 0;
          idle = 0;
          in_flight = l.in_flight;
          held = l.held;
          read_side = omega (arith, no_reads, total-append is_read rest ops);
          write_side = omega (arith, no_writes, total-append is_write rest ops);
          connect_side = omega (arith, no_connects, total-append is_connect rest ops);
          count = omega (
            arith,
            l.count,
            l.read_side,
            l.write_side,
            l.connect_side,
            r.connects,
            r.writes,
            no_writes,
            total-append is_write rest ops,
          );
          failing = omega arith;
          block_size = l.block_size;
          lengths = l.lengths;
          apart = l.apart;
          fits =
              Every-append _ rest _
                (only_closing s (handle_connect false false s).0 w.memory l.in_flight l.in_flight
                  rest r.fits_rest no_connects no_reads no_writes)
                (
                  (refl, omega (arith, l.some_size, l.block_size), omega arith, r.fits_op),
                  ((refl, refl), tt),
                );
          number_in_flight = omega (
            arith,
            l.number_in_flight,
            l.write_side,
            l.connect_side,
            r.connects,
            no_writes,
            r.writes,
            total-append is_write rest ops,
          );
          number_held = omega (arith, l.number_held, l.read_side, l.connect_side, r.connects);
          holds = λ h. absurd (omega (arith, h));
          stream = l.stream;
          written = l.written;
          read = l.read;
        };
        not_both = omega arith;
      }

  pub close-IsValid :
      (v : IsValid size w) (rest : List Op)
      → Rest size w v.ledger closing rest
      → IsValid size (record w { pending = rest; session = close_socket w.session })
  unfolding close_socket
  close-IsValid v rest r =
      recount v false rest v.ledger.read_failed v.ledger.write_failed w.failures
        (omega (arith, r.reads)) (omega (arith, r.writes)) (omega (arith, r.connects))
        (omega (arith, v.ledger.failing, r.connects)) r.fits_rest

  pub stop-IsValid : IsValid size w → IsValid size (act stop w)
  stop-IsValid v =
      let ops : List Op = closing ∷ [] in
      recount v w.session.is_open (w.pending ++ ops) v.ledger.read_failed v.ledger.write_failed
        w.failures (omega (arith, total-append is_read w.pending ops))
        (omega (arith, total-append is_write w.pending ops))
        (omega (arith, total-append is_connect w.pending ops))
        (omega (arith, v.ledger.failing, total-append is_connect w.pending ops))
        (Every-append _ w.pending ops v.ledger.fits (tt, tt))
