-- ===== src/Coro/Overflow.antt =====
-- What happens with 256 streams or more, which the usage text allows.
use await.Base.{
  ℕ, zero, suc, ◌+◌, ◌%◌, ◌^◌, ◌≤◌, ◌<◌, true, List, [], ◌∷◌, ◌≡◌, refl, length, ℤ, done, Returns,
  Returns_mono, Returns->>=, ◌>>=◌, arith, ap, ◌∙◌, some, ◌-◌, sym,
}
use await.Scheduler.{SchedulerQueue}
use await.Scheduler.Fifo.{
  IsValid, contents, size, length-contents, push_back-IsValid, size-push_back_mod,
  try_pop_front_of_empty,
}
use await.Coro.{Task, World, coro_binary_search, spawn_all, run, coro_multi_lookup}
use await.Coro.Balance.{run_of_empty, spawn_of_room, push_spawned}

module _ (v : List ℤ) (fuel : ℕ) where
  -- Lookups were queued and none has run: the counts are 0, and `queued` handles went into the ring.
  record Queued (queued limit : ℕ) (w : World) : Type 0 where
    valid : IsValid w.queue
    wrapped : size w.queue ≡ queued % 256
    limited : w.limit ≡ limit
    none_found : w.found_count ≡ 0
    none_missed : w.not_found_count ≡ 0

  spawn_all-Queued :
      (keys : List ℤ) (queued limit : ℕ) (w : World)
      → length keys + limit < 2 ^ 32
      → Queued queued (length keys + limit) w
      → Returns (spawn_all v fuel keys w) (Queued (queued + length keys) limit)
  unfolding spawn_all
  spawn_all-Queued [] queued limit w small s = record {
    valid = s.valid;
    wrapped = omega (arith, s.wrapped);
    limited = omega (arith, s.limited);
    none_found = s.none_found;
    none_missed = s.none_missed;
  }
  spawn_all-Queued (key ∷ keys) queued limit w small s =
      rw (spawn_of_room v fuel t w (omega (arith, s.limited))) (
        Returns_mono (spawn_all v fuel keys (push_spawned t w)) recount (
          spawn_all-Queued keys (queued + 1) limit (push_spawned t w) (omega arith) (record {
            valid = push_back-IsValid _ s.valid;
            wrapped =
                omega
                  (arith, size-push_back_mod (some (record t { owned = true })) s.valid, s.wrapped);
            limited = omega (arith, s.limited);
            none_found = s.none_found;
            none_missed = s.none_missed;
          })))
    where
      t : Task
      t = coro_binary_search 0 (length v) key

      recount :
          (w' : World)
          → Queued (queued + 1 + length keys) limit w'
          → Queued (queued + suc (length keys)) limit w'
      recount w' s' = record {
        valid = s'.valid;
        wrapped = omega (arith, s'.wrapped);
        limited = s'.limited;
        none_found = s'.none_found;
        none_missed = s'.none_missed;
      }

  run_of_wrapped :
      (rounds limit : ℕ) (w : World)
      → 0 < rounds
      → Queued 256 limit w
      → run v rounds fuel w ≡ done w
  run_of_wrapped zero limit w h s = absurd (omega arith)
  run_of_wrapped (suc rounds) limit w h s =
      run_of_empty v rounds fuel w (try_pop_front_of_empty s.valid s.wrapped)

-- For 256 lookups and 256 streams or more, from a valid and empty queue and whatever the vector and
-- the keys are, `CoroMultiLookup` runs none of them: it returns 0 and prints BUG.
pub coro_multi_lookup_overflow :
    (v : List ℤ) (fuel : ℕ) (lookups : List ℤ) (streams : ℕ) (queue : SchedulerQueue Task)
    → 0 < fuel
    → length lookups ≡ 256
    → 256 ≤ streams
    → streams < 2 ^ 32
    → IsValid queue
    → contents queue ≡ []
    → Returns (coro_multi_lookup v fuel lookups streams queue) (λ r. (r.0 ≡ 0) × (r.1 ≡ true))
unfolding coro_multi_lookup
coro_multi_lookup_overflow v fuel lookups streams queue some_fuel many wide small valid empty =
    Returns->>= _ (spawn_all v fuel lookups start >>= run v fuel fuel) _
      (Returns->>= (Queued v fuel 256 limit) (spawn_all v fuel lookups start) (run v fuel fuel)
        (spawn_all-Queued v fuel lookups 0 limit start (omega arith) queued)
        (λ w s. rw (run_of_wrapped v fuel fuel limit w some_fuel (full w s)) (full w s)))
      (λ w s.
        rw (run_of_wrapped v fuel fuel limit w some_fuel s)
          (s.none_found, ground (arith, s.none_found, s.none_missed)))
  where
    limit : ℕ
    limit = streams - 256

    start : World
    start = record { queue = queue; limit = streams; found_count = 0; not_found_count = 0 }

    queued : Queued v fuel 0 (length lookups + limit) start
    queued = record {
      valid = valid;
      wrapped = omega (arith, sym (length-contents queue) ∙ ap length empty);
      limited = omega arith;
      none_found = refl;
      none_missed = refl;
    }

    full : (w : World) → Queued v fuel (0 + length lookups) limit w → Queued v fuel 256 limit w
    full w s = record {
      valid = s.valid;
      wrapped = omega (arith, s.wrapped);
      limited = s.limited;
      none_found = s.none_found;
      none_missed = s.none_missed;
    }
