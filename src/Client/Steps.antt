-- ===== src/Client/Steps.antt =====
-- Every completion keeps the protocol of the session.
use await.Base.{
  nil_of_length, ℕ, ◌+◌, ◌≤◌, ◌≡◌, refl, ap, sym, ◌∙◌, ==_ne, false, List, [], ◌∷◌, ◌++◌, length,
  total-append, Every-mono, Every-zero, take, length-take, arith,
}
use mathlib.Core.List.{append_assoc, append-nil}
use await.Client.{
  Block, Op, connecting, reading, writing, closing, Session, World, act, handle_read, handle_write,
  store, add64, inc, dec,
}
use await.Client.Valid.{is_connect, is_write, volume, Fits, Ledger, IsValid}
use await.Client.Swap.{go_if_one-IsValid, complete, length-store, store-Apart, take-store}

-- the bytes that have been read are counted
volume-snoc : (xs : List (List ℕ)) (x : List ℕ) → volume (xs ++ (x ∷ [])) ≡ volume xs + length x
volume-snoc xs x = omega (arith, total-append length xs (x ∷ []))

snoc_stream {ℓ} :
    {A : Type ℓ} {x : A} (received sent in_flight held : List A) (y : A)
    → held ≡ []
    → x ∷ received ≡ sent ++ (in_flight ++ held)
    → x ∷ (received ++ (y ∷ [])) ≡ sent ++ (in_flight ++ (y ∷ []))
snoc_stream received sent in_flight held y none_held e =
    ap (λ l. l ++ (y ∷ [])) (e ∙ ap (λ l. sent ++ l) (rw none_held (append-nil in_flight)))
    ∙ append_assoc sent in_flight (y ∷ [])

module _ {size : ℕ} {w : World} where
  Fits-store :
      (s' : Session) (l : Ledger size w) (b : Block) (bytes : List ℕ)
      → b ≡ w.session.read_data
      → s'.read_data ≡ w.session.read_data
      → s'.write_data ≡ w.session.write_data
      → s'.block_size ≡ w.session.block_size
      → (op : Op) → Fits w.session w.memory l.in_flight op
      → Fits s' (store b bytes w.memory) l.in_flight op
  Fits-store s' l b bytes here r s z connecting fits =
      rw (z, s, store-Apart b w.session.write_data bytes w.memory (rw here l.apart)) fits
  Fits-store s' l b bytes here r s z (reading b' n) fits = (fits.0 ∙ sym r, fits.1 ∙ sym z)
  Fits-store s' l b bytes here r s z (writing b' n) (target, positive, bound, flies) = (
    target ∙ sym s,
    positive,
    omega (arith, bound, z),
    rw (store-Apart b b' bytes w.memory (rw (here, target) l.apart)) flies,
  )
  Fits-store s' l b bytes here r s z closing fits = tt

  pub read-IsValid :
      (v : IsValid size w) (before after : List Op) (b : Block) (n : ℕ) (bytes : List ℕ)
      → w.pending ≡ before ++ (reading b n ∷ after)
      → 1 ≤ length bytes
      → length bytes ≤ n
      → IsValid size (
          act (handle_read false (length bytes)) (record w {
            pending = before ++ after;
            memory = store b bytes w.memory;
            received = w.received ++ (bytes ∷ []);
          }))
  unfolding handle_read
  read-IsValid v before after b n bytes e some_bytes bound =
      let l = v.ledger in
      let rest = complete l before after (reading b n) e in
      let (here, whole) = rest.fits_op in
      let none_held : l.held ≡ [] =
        nil_of_length l.held (omega (arith, l.number_held, l.read_side, rest.reads)) in
      go_if_one-IsValid
        (record {
          some_size = l.some_size;
          unconnected = l.unconnected;
          read_failed = l.read_failed;
          waiting = 1;
          write_failed = l.write_failed;
          idle = l.idle;
          in_flight = l.in_flight;
          held = bytes ∷ [];
          read_side = omega (arith, l.read_side, rest.reads);
          write_side = omega (arith, l.write_side, rest.writes);
          connect_side = omega (arith, l.connect_side, rest.connects);
          count = omega (arith, l.count, l.write_side, l.read_side, rest.reads, rest.writes);
          failing = omega (arith, l.failing, rest.connects);
          block_size = l.block_size;
          lengths = λ b'. length-store b bytes w.memory b' ∙ l.lengths b';
          apart = l.apart;
          fits =
              Every-mono _ _
                (Fits-store
                  (record w.session {
                    read_data_length = length bytes;
                    unwritten_count = inc w.session.unwritten_count;
                    bytes_read = add64 w.session.bytes_read (length bytes);
                  })
                  l b bytes here refl refl refl)
                (before ++ after) rest.fits_rest;
          number_in_flight = omega (arith, l.number_in_flight, rest.writes);
          number_held = refl;
          holds = λ _. (
            some_bytes,
            omega (arith, bound, whole),
            ap (λ l. l ∷ [])
                (sym (
                  take-store b w.session.read_data bytes w.memory here
                    (omega (arith, bound, whole, l.block_size, l.lengths w.session.read_data)))),
          );
          stream = snoc_stream w.received w.sent l.in_flight l.held bytes none_held l.stream;
          written = l.written;
          read = omega (arith, l.read, volume-snoc w.received bytes);
        })
        (omega arith)

  -- Once the write is over, what is left asks nothing of the write side.
  Fits-written :
      (s' : Session) (l : Ledger size w) (f' : List (List ℕ))
      → s'.read_data ≡ w.session.read_data
      → s'.block_size ≡ w.session.block_size
      → (op : Op)
      → (Fits w.session w.memory l.in_flight op × (is_connect op ≡ 0)) × (is_write op ≡ 0)
      → Fits s' w.memory f' op
  Fits-written s' l f' r z connecting fits = absurd (omega (arith, fits.0.1))
  Fits-written s' l f' r z (reading b' n) fits = (fits.0.0.0 ∙ sym r, fits.0.0.1 ∙ sym z)
  Fits-written s' l f' r z (writing b' n) fits = absurd (omega (arith, fits.1))
  Fits-written s' l f' r z closing fits = tt

  pub write-IsValid :
      (v : IsValid size w) (before after : List Op) (b : Block) (n : ℕ)
      → w.pending ≡ before ++ (writing b n ∷ after)
      → IsValid size (
          act
            (handle_write false n)
            (record w { pending = before ++ after; sent = w.sent ++ (take n (w.memory b) ∷ []) }))
  unfolding handle_write
  write-IsValid v before after b n e =
      let l = v.ledger in
      let rest = complete l before after (writing b n) e in
      let (target, positive, bound, flies) = rest.fits_op in
      let s' = record w.session {
        bytes_written = add64 w.session.bytes_written n;
        unwritten_count = dec w.session.unwritten_count;
      } in
      let chunk : length (take n (w.memory b)) ≡ n =
        length-take n (w.memory b) (omega (arith, bound, l.block_size, l.lengths b)) in
      rw (==_ne n 0 (omega (arith, positive))) (
        go_if_one-IsValid
          (record {
            some_size = l.some_size;
            unconnected = l.unconnected;
            read_failed = l.read_failed;
            waiting = l.waiting;
            write_failed = l.write_failed;
            idle = 1;
            in_flight = [];
            held = l.held;
            read_side = omega (arith, l.read_side, rest.reads);
            write_side = omega (arith, l.write_side, rest.writes);
            connect_side = omega (arith, l.connect_side, rest.connects);
            count = omega (arith, l.count, l.write_side, l.read_side, rest.reads, rest.writes);
            failing = omega (arith, l.failing, rest.connects);
            block_size = l.block_size;
            lengths = l.lengths;
            apart = l.apart;
            fits = Every-mono _ _ (Fits-written s' l [] refl refl) (before ++ after) (
                Every-zero _ is_write (before ++ after) (omega (arith, l.write_side, rest.writes)) (
                  Every-zero _ is_connect (before ++ after)
                    (omega (arith, l.write_side, rest.writes, l.connect_side, rest.connects))
                    rest.fits_rest));
            number_in_flight = omega (arith, l.number_in_flight, rest.writes, l.write_side);
            number_held = l.number_held;
            holds = l.holds;
            stream =
                l.stream
                ∙ ap (λ f. w.sent ++ (f ++ l.held)) flies
                ∙ sym (append_assoc w.sent (take n (w.memory b) ∷ []) l.held);
            written = omega (arith, l.written, chunk, volume-snoc w.sent (take n (w.memory b)));
            read = l.read;
          })
          (omega arith))
