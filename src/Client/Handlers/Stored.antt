-- ===== src/Client/Handlers/Stored.antt =====
-- Which handlers of a session of myclient.cpp hold the storages.
use await.Base.{
  ℕ, zero, suc, ◌+◌, ◌-◌, ◌*◌, ◌/◌, ◌%◌, ◌^◌, leb, Bool-cases, inl, inr, ◌≤◌, ◌<◌, ◌≡◌, refl, ap,
  subst, ◌∙◌, Bool, true, false, List, [], ◌∷◌, ◌++◌, length, total, total_split, total-append,
  ◌==◌, arith,
}
use await.HandlerAllocator.{storage_size, allocate, deallocate, simple_allocate, simple_deallocate}
use await.Client.{Op, connecting, reading, writing, closing, started}
use await.Client.Valid.{is_read, is_write}
use await.Client.Runs.{Reach, begins, goes}
use await.Client.Echo.{OneEach, session-OneEach}
use await.Client.Handlers.{
  take, give, Handlers, finish, launch, launch_all, is_custom, Move, completes, stops, store_at,
  Runs, starts, moves,
}

take-lem : (bytes : ℕ) → bytes ≤ storage_size → take bytes (store_at 0) ≡ store_at 1
unfolding take simple_allocate allocate
take-lem bytes h =
    let whole : bytes * 1 % 2 ^ 64 ≡ bytes = omega (arith, h) in
    let one_each : bytes / 1 ≡ bytes = omega arith in
    let itself : (bytes == bytes) ≡ true = ground arith in
    let fits : leb bytes storage_size ≡ true = ground (arith, h) in
    rw (whole, one_each, itself, fits) refl

give-lem : (n : ℕ) → n ≤ 1 → give (store_at n) ≡ store_at (n - 1)
unfolding give simple_deallocate deallocate
give-lem zero h = refl
give-lem (suc zero) h = refl
give-lem (suc (suc n)) h = absurd (omega (arith, h))

-- The stores after `r` reads and `w` writes have come by their handlers' memory, the plain ones apart.
pub record Kept (h : Handlers) (r w : ℕ) : Type 0 where
  pub custom : ℕ
  pub all_writes : h.plain + custom ≡ w
  pub read_store : h.reads ≡ store_at r
  pub write_store : h.writes ≡ store_at custom

finish-Kept :
    (op : Op) (h : Handlers) (r w : ℕ)
    → Kept h (is_read op + r) (is_write op + w)
    → is_read op + r ≤ 1
    → is_write op + w ≤ 1
    → Kept (finish op h) r w
finish-Kept connecting h r w k one_read one_write = record {
  custom = k.custom;
  all_writes = omega (arith, k.all_writes);
  read_store = k.read_store ∙ ap store_at (omega arith);
  write_store = k.write_store;
}
finish-Kept (reading b n) h r w k one_read one_write = record {
  custom = k.custom;
  all_writes = omega (arith, k.all_writes);
  read_store = ap give k.read_store ∙ give-lem (1 + r) one_read ∙ ap store_at (omega arith);
  write_store = k.write_store;
}
finish-Kept (writing b n) h r w k one_read one_write = elim (Bool-cases (h.plain == 0)) [
  | inl e ↦
      (let none_plain : h.plain ≡ 0 = ground arith in
        rw e (record {
          custom = w;
          all_writes = omega (arith, none_plain);
          read_store = k.read_store ∙ ap store_at (omega arith);
          write_store =
              ap give k.write_store
              ∙ give-lem k.custom (omega (arith, k.all_writes, one_write))
              ∙ ap store_at (omega (arith, k.all_writes, none_plain));
        }))
  | inr e ↦
      (let some_plain : 0 < h.plain = ground arith in
        rw e (record {
          custom = k.custom;
          all_writes = omega (arith, k.all_writes, some_plain);
          read_store = k.read_store ∙ ap store_at (omega arith);
          write_store = k.write_store;
        }))
]
finish-Kept closing h r w k one_read one_write = record {
  custom = k.custom;
  all_writes = omega (arith, k.all_writes);
  read_store = k.read_store ∙ ap store_at (omega arith);
  write_store = k.write_store;
}

module _ (bytes : Op → ℕ) (small : (op : Op) → bytes op ≤ storage_size) where
  launch-Kept :
      (custom : Bool) (op : Op) (h : Handlers) (r w : ℕ)
      → Kept h r w
      → is_read op + r ≤ 1
      → is_write op + w ≤ 1
      → Kept (launch custom bytes op h) (is_read op + r) (is_write op + w)
  launch-Kept custom connecting h r w k one_read one_write = record {
    custom = k.custom;
    all_writes = omega (arith, k.all_writes);
    read_store = k.read_store ∙ ap store_at (omega arith);
    write_store = k.write_store;
  }
  launch-Kept custom (reading b n) h r w k one_read one_write =
      let none_before : r ≡ 0 = omega (arith, one_read) in
      let one_after : 1 ≡ 1 + r = omega (arith, one_read) in
      record {
        custom = k.custom;
        all_writes = omega (arith, k.all_writes);
        read_store =
            ap (take (bytes (reading b n))) (k.read_store ∙ ap store_at none_before)
            ∙ take-lem (bytes (reading b n)) (small (reading b n))
            ∙ ap store_at one_after;
        write_store = k.write_store;
      }
  launch-Kept true (writing b n) h r w k one_read one_write =
      let none_before : k.custom ≡ 0 = omega (arith, k.all_writes, one_write) in
      record {
        custom = 1;
        all_writes = omega (arith, k.all_writes, one_write);
        read_store = k.read_store ∙ ap store_at (omega arith);
        write_store =
            ap (take (bytes (writing b n))) (k.write_store ∙ ap store_at none_before)
            ∙ take-lem (bytes (writing b n)) (small (writing b n));
      }
  launch-Kept false (writing b n) h r w k one_read one_write = record {
    custom = k.custom;
    all_writes = omega (arith, k.all_writes);
    read_store = k.read_store ∙ ap store_at (omega arith);
    write_store = k.write_store;
  }
  launch-Kept custom closing h r w k one_read one_write = record {
    custom = k.custom;
    all_writes = omega (arith, k.all_writes);
    read_store = k.read_store ∙ ap store_at (omega arith);
    write_store = k.write_store;
  }

  launch_all-Kept :
      (custom : Bool) (ops : List Op) (h : Handlers) (r w : ℕ)
      → Kept h r w
      → total is_read ops + r ≤ 1
      → total is_write ops + w ≤ 1
      → (r' w' : ℕ) → total is_read ops + r ≡ r'
      → total is_write ops + w ≡ w'
      → Kept (launch_all custom bytes ops h) r' w'
  unfolding launch_all
  launch_all-Kept custom [] h r w k one_read one_write r' w' re we = record {
    custom = k.custom;
    all_writes = omega (arith, k.all_writes, we);
    read_store = k.read_store ∙ ap store_at (omega (arith, re));
    write_store = k.write_store;
  }
  launch_all-Kept custom (op ∷ ops) h r w k one_read one_write r' w' re we =
      launch_all-Kept custom ops (launch custom bytes op h) (is_read op + r) (is_write op + w)
        (launch-Kept custom op h r w k (omega (arith, one_read)) (omega (arith, one_write)))
        (omega (arith, one_read)) (omega (arith, one_write)) r' w' (omega (arith, re))
        (omega (arith, we))

  move-Kept :
      {h h' : Handlers}
      → Move bytes h h'
      → OneEach h.world
      → OneEach h'.world
      → Kept h (total is_read h.world.pending) (total is_write h.world.pending)
      → Kept h' (total is_read h'.world.pending) (total is_write h'.world.pending)
  move-Kept {h = h} (completes {w = w} before after op ops s at next) one one' k =
      let rest = before ++ after in
      let r = total is_read rest in
      let n = total is_write rest in
      let here_r : total is_read h.world.pending ≡ is_read op + r =
        ap (total is_read) at ∙ total_split is_read before op after in
      let here_w : total is_write h.world.pending ≡ is_write op + n =
        ap (total is_write) at ∙ total_split is_write before op after in
      let there_r : total is_read w.pending ≡ r + total is_read ops =
        ap (total is_read) next ∙ total-append is_read rest ops in
      let there_w : total is_write w.pending ≡ n + total is_write ops =
        ap (total is_write) next ∙ total-append is_write rest ops in
      let finished =
        finish-Kept op h r n
          (subst (λ x. Kept h x (is_write op + n)) here_r
            (subst (Kept h (total is_read h.world.pending)) here_w k))
          (omega (arith, one.one_read, here_r)) (omega (arith, one.one_write, here_w)) in
      let launched =
        launch_all-Kept (is_custom op) ops (finish op h) r n finished
          (omega (arith, one'.one_read, there_r)) (omega (arith, one'.one_write, there_w))
          (total is_read w.pending) (total is_write w.pending) (omega (arith, there_r))
          (omega (arith, there_w)) in
      record {
        custom = launched.custom;
        all_writes = launched.all_writes;
        read_store = launched.read_store;
        write_store = launched.write_store;
      }
  move-Kept {h = h} (stops {w = w} s next) one one' k =
      let ops = closing ∷ [] in
      record {
        custom = k.custom;
        all_writes = omega (
          arith,
          k.all_writes,
          ap (total is_write) next,
          total-append is_write h.world.pending ops,
        );
        read_store =
            k.read_store
            ∙ ap store_at
                (omega (arith, ap (total is_read) next, total-append is_read h.world.pending ops));
        write_store = k.write_store;
      }

  runs-Reach :
      {size : ℕ} {junk : List ℕ} {h : Handlers} → Runs bytes size junk h → Reach size junk h.world
  runs-Reach starts = begins
  runs-Reach (moves r (completes before after op ops s at next)) = goes (runs-Reach r) s
  runs-Reach (moves r (stops s next)) = goes (runs-Reach r) s

  runs-Kept :
      {size : ℕ} {junk : List ℕ} {h : Handlers}
      → 0 < size
      → length junk ≡ size
      → Runs bytes size junk h
      → Kept h (total is_read h.world.pending) (total is_write h.world.pending)
  unfolding started
  runs-Kept some_size whole starts = record {
    custom = 0;
    all_writes = refl;
    read_store = refl;
    write_store = refl;
  }
  runs-Kept some_size whole (moves r m) =
      move-Kept m (session-OneEach some_size whole (runs-Reach r))
        (session-OneEach some_size whole (runs-Reach (moves r m))) (runs-Kept some_size whole r)

  -- In every run of a session of myclient.cpp with a block size above 0 and with handlers of at
  -- most 1024 bytes: at most one read and one write are under way, none of them next to a
  -- connection attempt, of which there is at most one, and at least one of these three is under way
  -- as long as none has failed; the read fills the read array, the write is not empty and stays
  -- inside the write array, and these are different arrays. The handler of a read has the storage
  -- of `read_allocator_` while it is under way, that of a write the storage of `write_allocator_`,
  -- the first write after the connection excepted, and no other handler has; neither allocator ever
  -- goes to the heap or throws.
  pub session-Stored :
      {size : ℕ} {junk : List ℕ} {h : Handlers}
      → 0 < size
      → length junk ≡ size
      → Runs bytes size junk h
      → OneEach h.world × Kept h (total is_read h.world.pending) (total is_write h.world.pending)
  session-Stored some_size whole r =
      (session-OneEach some_size whole (runs-Reach r), runs-Kept some_size whole r)
