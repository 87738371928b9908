-- ===== src/Pal/Threads.antt =====
-- The threads that the constructor of `CompletionQueue` makes.
use await.Base.{
  ℕ, zero, suc, ◌+◌, ◌*◌, Bool-cases, inl, inr, some, none, ◌≤◌, ◌<◌, ◌≡◌, refl, ap, sym, ◌∙◌, Bool,
  true, false, [], ltb, ltb→lt, lt→ltb, arith, if◌then◌else◌,
}
use await.Pal.Pool.{new_pool, readers_pool}
use await.Pal.Queue.{
  Ends, returns, exits, overruns, CompletionQueue, new_queue, create_threads, thread_slots,
}

turn-returns :
    (b c : Bool) (next : Ends CompletionQueue) (q : CompletionQueue)
    → (if b then (if c then next else exits 1) else overruns) ≡ returns q
    → (b ≡ true) × (next ≡ returns q)
turn-returns true true next q e = (refl, e)
turn-returns true false next q e = absurd (cc)
turn-returns false c next q e = absurd (cc)

create_threads-returns :
    (ok : ℕ → Bool) (i left : ℕ) (q q' : CompletionQueue)
    → create_threads ok i left q ≡ returns q'
    → i ≤ thread_slots
    → (q' ≡ record q { threads = q.threads + left }) × (i + left ≤ thread_slots)
create_threads-returns ok i zero q q' e h =
    let same : q ≡ q' = cc in
    (sym same ∙ ap (λ n. record q { threads = n }) (omega arith), omega (arith, h))
create_threads-returns ok i (suc left) q q' e h =
    let (below, rest) =
      turn-returns (ltb i thread_slots) (ok i)
        (create_threads ok (suc i) left (record q { threads = q.threads + 1 })) q' e in
    let (same, few) =
      create_threads-returns ok (suc i) left (record q { threads = q.threads + 1 }) q' rest
        (omega (arith, ltb→lt i thread_slots below)) in
    (same ∙ ap (λ n. record q { threads = n }) (omega arith), omega (arith, few))

-- the queue as its constructor leaves it
abbrev pub made : ℕ → CompletionQueue
made n = record { thread_count = n; count = n; threads = n; packets = []; associated = [] }

pub new_queue_returns :
    (port_ok : Bool) (ok : ℕ → Bool) (n : ℕ) (q : CompletionQueue)
    → new_queue port_ok ok n ≡ returns q
    → (q ≡ made n) × (n ≤ thread_slots)
unfolding new_queue
new_queue_returns false ok n q e = absurd (cc)
new_queue_returns true ok n q e =
    let (same, few) =
      create_threads-returns ok 0 n (record (made n) { threads = 0 }) q e (omega arith) in
    (same ∙ ap (λ k. record (made n) { threads = k }) (omega arith), omega (arith, few))

module _ (ok : ℕ → Bool) (all : (i : ℕ) → ok i ≡ true) where
  create_threads_fit :
      (i left : ℕ) (q : CompletionQueue)
      → i + left ≤ thread_slots
      → create_threads ok i left q ≡ returns (record q { threads = q.threads + left })
  create_threads_fit i zero q h = ap (λ n. returns (record q { threads = n })) (omega arith)
  create_threads_fit i (suc left) q h =
      rw (lt→ltb i thread_slots (omega (arith, h)), all i)
        (create_threads_fit (suc i) left (record q { threads = q.threads + 1 }) (omega (arith, h))
          ∙ ap (λ n. returns (record q { threads = n })) (omega arith))

  create_threads_over :
      (i left : ℕ) (q : CompletionQueue)
      → i ≤ thread_slots
      → thread_slots < i + left
      → create_threads ok i left q ≡ overruns
  create_threads_over i zero q l h = absurd (omega (arith, l, h))
  create_threads_over i (suc left) q l h = elim (Bool-cases (ltb i thread_slots)) [
    | inl t ↦
        rw (t, all i)
          (create_threads_over (suc i) left (record q { threads = q.threads + 1 })
            (omega (arith, ltb→lt i thread_slots t)) (omega (arith, h)))
    | inr f ↦ rw f refl
  ]

  -- `ThreadPool q(nReaders * 2 + 8, sync)` when there is no pool yet
  pub readers_pool_fit :
      (readers : ℕ) (sync sync_completion : Bool)
      → readers ≤ 28
      → readers_pool true ok readers sync
          (record { queue = none; sync_completion = sync_completion })
        ≡ returns (record {
          queue = some (made (readers * 2 + 8));
          sync_completion = if sync then sync_completion else false;
        })
  unfolding readers_pool new_pool new_queue
  readers_pool_fit readers sync sync_completion h =
      rw
        (create_threads_fit 0 (readers * 2 + 8) (record (made (readers * 2 + 8)) { threads = 0 })
          (omega (arith, h)))
        (ap
          (λ n. returns (record {
            queue = some (record (made (readers * 2 + 8)) { threads = n });
            sync_completion = if sync then sync_completion else false;
          }))
          (omega arith))

  pub readers_pool_over :
      (readers : ℕ) (sync sync_completion : Bool)
      → 28 < readers
      → readers_pool true ok readers sync
          (record { queue = none; sync_completion = sync_completion })
        ≡ overruns
  unfolding readers_pool new_pool new_queue
  readers_pool_over readers sync sync_completion h =
      rw
        (create_threads_over 0 (readers * 2 + 8) (record (made (readers * 2 + 8)) { threads = 0 })
          (omega arith) (omega (arith, h)))
        refl
