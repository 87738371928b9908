-- ===== src/Client/Swap.antt =====
-- When both sides wait for each other the arrays are swapped, and the protocol goes on.
use await.Base.{
  nil_of_length, ℕ, ◌+◌, ◌≤◌, ◌≡◌, ◌≢◌, refl, ap, sym, subst, ◌∙◌, ◌==◌, ==_iff, ==_false,
  Bool-cases, inl, inr, List, [], ◌∷◌, ◌++◌, length, total, total-append, Every, Every-mono,
  Every-split, Every-append, Every-zero, total_split, take, overwrite, length-overwrite, take,
  take-overwrite, take-overwrite, arith,
}
use mathlib.Core.List.{append-nil}
use await.Client.{
  Block, one, two, Op, connecting, reading, writing, closing, Session, World, act, go_if_one,
  swap_and_go, store,
}
use await.Client.Valid.{is_connect, is_read, is_write, Fits, Apart, Ledger, IsValid}

Apart-swap : (a b : Block) → Apart a b → Apart b a
Apart-swap one two h = tt
Apart-swap two one h = tt
Apart-swap one one h = elim h [ ]
Apart-swap two two h = elim h [ ]

move_up {ℓ} : {A : Type ℓ} (xs fs hs : List A) → fs ≡ [] → xs ++ (fs ++ hs) ≡ xs ++ (hs ++ [])
move_up xs fs hs e = rw e (ap (λ l. xs ++ l) (sym (append-nil hs)))

-- With no connection, read or write under way, the rest fits whatever comes next.
module _ (s s' : Session) (m : Block → List ℕ) (f f' : List (List ℕ)) where
  weaken :
      (op : Op)
      → ((Fits s m f op × (is_connect op ≡ 0)) × (is_read op ≡ 0)) × (is_write op ≡ 0)
      → Fits s' m f' op
  weaken connecting h = absurd (omega (arith, h.0.0.1))
  weaken (reading b n) h = absurd (omega (arith, h.0.1))
  weaken (writing b n) h = absurd (omega (arith, h.1))
  weaken closing h = tt

  pub only_closing :
      (ops : List Op)
      → Every (Fits s m f) ops
      → total is_connect ops ≡ 0
      → total is_read ops ≡ 0
      → total is_write ops ≡ 0
      → Every (Fits s' m f') ops
  only_closing ops fits c r w = Every-mono _ _ weaken ops (
      Every-zero _ is_write ops w (Every-zero _ is_read ops r (Every-zero _ is_connect ops c fits)))

module _ {size : ℕ} {w : World} where
  swap-IsValid : (l : Ledger size w) → l.waiting ≡ 1 → l.idle ≡ 1 → IsValid size (act swap_and_go w)
  swap-IsValid l one_waits one_idle =
      let s = w.session in
      let (positive, bound, kept) = l.holds (omega (arith, one_waits)) in
      let none_flies : l.in_flight ≡ [] =
        nil_of_length l.in_flight
          (omega (arith, l.number_in_flight, l.write_side, l.connect_side, one_idle)) in
      let ops : List Op =
        writing s.read_data s.read_data_length ∷ reading s.write_data s.block_size ∷ [] in
      let no_reads : total is_read w.pending ≡ 0 = omega (arith, l.read_side, one_waits) in
      let no_writes : total is_write w.pending ≡ 0 = omega (arith, l.write_side, one_idle) in
      let no_connects : total is_connect w.pending ≡ 0 =
        omega (arith, l.read_side, one_waits, l.connect_side) in
      record {
        ledger = record {
          some_size = l.some_size;
          unconnected = 0;
          read_failed = 0;
          waiting = 0;
          write_failed = 0;
          idle = 0;
          in_flight = l.held;
          held = [];
          read_side = omega (arith, no_reads, total-append is_read w.pending ops);
          write_side = omega (arith, no_writes, total-append is_write w.pending ops);
          connect_side = omega (arith, no_connects, total-append is_connect w.pending ops);
          count = omega (
            arith,
            l.count,
            l.write_side,
            one_waits,
            one_idle,
            total-append is_write w.pending ops,
          );
          failing = omega arith;
          block_size = l.block_size;
          lengths = l.lengths;
          apart = Apart-swap s.read_data s.write_data l.apart;
          fits =
              Every-append _ w.pending _
                (only_closing s (swap_and_go s).0 w.memory l.in_flight l.held w.pending l.fits
                  no_connects no_reads no_writes)
                ((refl, positive, bound, kept), ((refl, refl), tt));
          number_in_flight =
              omega
                (arith, l.number_held, one_waits, no_writes, total-append is_write w.pending ops);
          number_held = refl;
          holds = λ h. absurd (omega (arith, h));
          stream = l.stream ∙ move_up w.sent l.in_flight l.held none_flies;
          written = l.written;
          read = l.read;
        };
        not_both = omega arith;
      }

  pub stay : IsValid size w → IsValid size (record w { pending = w.pending ++ [] })
  stay v = subst (λ p. IsValid size (record w { pending = p })) (sym (append-nil w.pending)) v

  -- The count is 1 just when both sides wait for each other.
  pub go_if_one-IsValid :
      (l : Ledger size w) → 1 ≤ l.waiting + l.idle → IsValid size (act go_if_one w)
  go_if_one-IsValid l some_side =
      let c = w.session.unwritten_count in
      elim (Bool-cases (c == 1)) as (λ _. IsValid size (act go_if_one w)) [
        | inl e ↦
            let is_one : c ≡ 1 = (==_iff c 1).0 e in
            rw e (
              swap-IsValid l (omega (arith, is_one, l.count, l.write_side, some_side))
                (omega (arith, is_one, l.count, l.write_side, l.read_side, some_side)))
        | inr e ↦
            let not_one : c ≢ 1 = ==_false c 1 e in
            rw e (
              stay (record {
                ledger = l;
                not_both = omega (arith, not_one, l.count, l.write_side, l.read_side);
              }))
      ]

-- What a completion leaves under way.
pub record Rest (size : ℕ) (w : World) (l : Ledger size w) (op : Op) (rest : List Op) : Type 0 where
  pub fits_op : Fits w.session w.memory l.in_flight op
  pub fits_rest : Every (Fits w.session w.memory l.in_flight) rest
  pub reads : total is_read w.pending ≡ is_read op + total is_read rest
  pub writes : total is_write w.pending ≡ is_write op + total is_write rest
  pub connects : total is_connect w.pending ≡ is_connect op + total is_connect rest

module _ {size : ℕ} {w : World} (l : Ledger size w) where
  pub complete :
      (before after : List Op) (op : Op)
      → w.pending ≡ before ++ (op ∷ after)
      → Rest size w l op (before ++ after)
  complete before after op e =
      let (fits_op, fits_rest) =
        Every-split (Fits w.session w.memory l.in_flight) before op after
          (subst (Every (Fits w.session w.memory l.in_flight)) e l.fits) in
      record {
        fits_op = fits_op;
        fits_rest = fits_rest;
        reads = ap (total is_read) e ∙ total_split is_read before op after;
        writes = ap (total is_write) e ∙ total_split is_write before op after;
        connects = ap (total is_connect) e ∙ total_split is_connect before op after;
      }

pub length-store :
    (b : Block) (bytes : List ℕ) (m : Block → List ℕ) (b' : Block)
    → length (store b bytes m b') ≡ length (m b')
length-store one bytes m one = length-overwrite bytes (m one)
length-store one bytes m two = refl
length-store two bytes m one = refl
length-store two bytes m two = length-overwrite bytes (m two)

pub store-Apart :
    (b b' : Block) (bytes : List ℕ) (m : Block → List ℕ) → Apart b b' → store b bytes m b' ≡ m b'
store-Apart one two bytes m h = refl
store-Apart two one bytes m h = refl
store-Apart one one bytes m h = elim h [ ]
store-Apart two two bytes m h = elim h [ ]

pub store_self :
    (b : Block) (bytes : List ℕ) (m : Block → List ℕ) → store b bytes m b ≡ overwrite bytes (m b)
store_self one bytes m = refl
store_self two bytes m = refl

pub take-store :
    (b b' : Block) (bytes : List ℕ) (m : Block → List ℕ)
    → b ≡ b'
    → length bytes ≤ length (m b')
    → take (length bytes) (store b bytes m b') ≡ bytes
take-store b b' bytes m e bound = rw (e, store_self b' bytes m) (take-overwrite bytes (m b') bound)
