-- ===== src/Coro/Throttle.antt =====
-- `throttler`: at most `streams` tasks at a time, and `CoroMultiLookup` against naive.h.
use await.Base.{
  ℕ, zero, suc, ◌+◌, ◌-◌, ◌*◌, ◌≤◌, ◌<◌, ◌==◌, true, false, Bool-cases, inl, inr, List, [], ◌∷◌,
  ◌++◌, ◌≡◌, refl, ap, ◌∙◌, length, length-append, total-append, to_ℕ, ℤ, Returns, Returns_mono,
  Returns->>=, ◌>>=◌, arith,
}
use await.Naive.{hits}
use await.Scheduler.{SchedulerQueue, pop_front}
use await.Scheduler.Fifo.{IsValid, contents, size, try_pop_front_of_empty, try_pop_front_of_some}
use await.Coro.{
  Task, World, coro_binary_search, resume_front, spawn, spawn_all, run, coro_multi_lookup, resume,
}
use await.Coro.Step.{answer}
use await.Coro.Resume.{Holds, size-Holds, push-Holds, pop-Holds, pending}
use await.Naive.Loop.{found_count}
use await.Coro.Balance.{push_spawned, Balance, resume-Balance, run_of_empty, run_of_some}

module _ (v : List ℤ) where
  module _ (streams fuel : ℕ) (few : streams ≤ 255) (enough : streams * (length v + 1) < fuel) where
    push_spawned-Balance :
        (spawned answers : ℕ) (key : ℤ) (w : World)
        → Balance v streams spawned answers w
        → 0 < w.limit
        → Balance v streams
            (spawned + 1)
            (answers + to_ℕ (hits v key 0 (length v)))
            (push_spawned (coro_binary_search 0 (length v) key) w)
    push_spawned-Balance spawned answers key w b room = record {
      tasks = b.tasks ++ (t ∷ []);
      holds =
          push-Holds v w.queue b.tasks t b.holds (omega (arith, b.shared))
            (record { owned = refl; in_range = omega arith });
      shared = omega (arith, b.shared, length-append b.tasks (t ∷ []));
      found = omega (
        arith,
        b.found,
        total-append (λ t. to_ℕ (answer v t)) b.tasks (t ∷ []),
        ap (λ k. to_ℕ (hits v key 0 k)) whole,
      );
      counted = omega (arith, b.counted, length-append b.tasks (t ∷ []));
    }
      where
        t : Task
        t = record (coro_binary_search 0 (length v) key) { owned = true }

        whole : length v - 0 ≡ length v
        whole = omega arith

    make_room :
        (spawned answers : ℕ) (w : World) (ts : List Task)
        → 0 < streams
        → w.limit ≡ 0
        → length ts ≡ streams
        → Holds v w.queue ts
        → w.found_count + pending v ts ≡ answers
        → w.found_count + w.not_found_count + length ts ≡ spawned
        → Returns
            (resume_front v fuel w)
            (λ w'. Balance v streams spawned answers w' × (w'.limit ≡ w.limit + 1))
    unfolding resume_front
    make_room spawned answers w [] some_stream none_left size h found counted = absurd (omega arith)
    make_room spawned answers w (t ∷ ts) some_stream none_left size h found counted =
        let (popped, holds) = pop-Holds v w.queue t ts h in
        rw (popped, resume_front)
          (resume-Balance v streams fuel few enough spawned answers w t ts (pop_front w.queue).1
            h.live.0 holds (omega arith) found counted)

    spawn-Balance :
        (spawned answers : ℕ) (key : ℤ) (w : World)
        → 0 < streams
        → Balance v streams spawned answers w
        → Returns
            (spawn v fuel (coro_binary_search 0 (length v) key) w)
            (Balance v streams (spawned + 1) (answers + to_ℕ (hits v key 0 (length v))))
    unfolding spawn
    spawn-Balance spawned answers key w some_stream b = elim (Bool-cases (w.limit == 0)) [
      | inl none_left ↦ rw none_left (
          Returns->>= _ (resume_front v fuel w) _
            (make_room spawned answers w b.tasks some_stream (ground arith)
              (ground (arith, b.shared)) b.holds b.found b.counted)
            (λ w' r. push_spawned-Balance spawned answers key w' r.0 (omega (arith, r.1))))
      | inr some_left ↦ rw some_left (push_spawned-Balance spawned answers key w b (ground arith))
    ]

    spawn_all-Balance :
        (keys : List ℤ) (spawned answers : ℕ) (w : World)
        → 0 < streams
        → Balance v streams spawned answers w
        → Returns
            (spawn_all v fuel keys w)
            (Balance v streams (spawned + length keys) (answers + found_count v keys))
    unfolding spawn_all
    spawn_all-Balance [] spawned answers w some_stream b = record {
      tasks = b.tasks;
      holds = b.holds;
      shared = b.shared;
      found = omega (arith, b.found);
      counted = omega (arith, b.counted);
    }
    spawn_all-Balance (key ∷ keys) spawned answers w some_stream b =
        Returns->>= _ (spawn v fuel (coro_binary_search 0 (length v) key) w) (spawn_all v fuel keys)
          (spawn-Balance spawned answers key w some_stream b)
          (λ w' b'. Returns_mono (spawn_all v fuel keys w') recount (
            spawn_all-Balance keys (spawned + 1) (answers + to_ℕ (hits v key 0 (length v))) w'
              some_stream b'))
      where
        recount :
            (w' : World)
            → Balance v streams
                (spawned + 1 + length keys)
                (answers + to_ℕ (hits v key 0 (length v)) + found_count v keys)
                w'
            → Balance v streams
                (spawned + suc (length keys))
                (answers + (to_ℕ (hits v key 0 (length v)) + found_count v keys))
                w'
        recount w' b' = record {
          tasks = b'.tasks;
          holds = b'.holds;
          shared = b'.shared;
          found = omega (arith, b'.found);
          counted = omega (arith, b'.counted);
        }

    -- Nothing waits in the queue, and the counts are complete.
    record Drained (spawned answers : ℕ) (w : World) : Type 0 where
      empty : Holds v w.queue []
      limit : w.limit ≡ streams
      found : w.found_count ≡ answers
      counted : w.found_count + w.not_found_count ≡ spawned

    run-Drained :
        (rounds spawned answers : ℕ) (w : World) (ts : List Task)
        → length ts < rounds
        → Holds v w.queue ts
        → w.limit + length ts ≡ streams
        → w.found_count + pending v ts ≡ answers
        → w.found_count + w.not_found_count + length ts ≡ spawned
        → Returns (run v rounds fuel w) (Drained spawned answers)
    run-Drained zero spawned answers w ts p h shared found counted = absurd (omega arith)
    run-Drained (suc rounds) spawned answers w [] p h shared found counted =
        rw
          (run_of_empty v rounds fuel w
            (try_pop_front_of_empty h.valid (size-Holds v w.queue [] h)))
          (record { empty = h; limit = omega arith; found = omega arith; counted = omega arith })
    run-Drained (suc rounds) spawned answers w (t ∷ ts) p h shared found counted =
        let (popped, holds) = pop-Holds v w.queue t ts h in
        rw
          (run_of_some v rounds fuel w t (pop_front w.queue).1
            (try_pop_front_of_some h.valid some_left ∙ ap (λ o. (o, (pop_front w.queue).1)) popped))
          (Returns->>= _ (resume v fuel t (record w { queue = (pop_front w.queue).1 }))
            (run v rounds fuel)
            (resume-Balance v streams fuel few enough spawned answers w t ts (pop_front w.queue).1
              h.live.0 holds shared found counted)
            (λ w' r.
              run-Drained rounds spawned answers w' r.0.tasks (omega (arith, r.0.shared, r.1))
                r.0.holds r.0.shared r.0.found r.0.counted))
      where
        some_left : 0 < size w.queue
        some_left = omega (arith, size-Holds v w.queue (t ∷ ts) h)

  -- From a valid and empty queue, on any vector, sorted or not, for 1 to 255 streams and with the
  -- given fuel, `CoroMultiLookup` returns: it counts the keys that the search of naive.h finds, it
  -- does not print BUG, and it leaves the queue valid and empty.
  pub coro_multi_lookup_lem :
      (fuel : ℕ) (lookups : List ℤ) (streams : ℕ) (queue : SchedulerQueue Task)
      → 0 < streams
      → streams ≤ 255
      → streams * (length v + 1) < fuel
      → IsValid queue
      → contents queue ≡ []
      → Returns
          (coro_multi_lookup v fuel lookups streams queue)
          (λ r. (r.0 ≡ found_count v lookups) × (r.1 ≡ false) × IsValid r.2 × (contents r.2 ≡ []))
  unfolding coro_multi_lookup
  coro_multi_lookup_lem fuel lookups streams queue some_stream few enough valid empty =
      Returns->>= _ (spawn_all v fuel lookups start >>= run v fuel fuel) _
        (Returns->>= _ (spawn_all v fuel lookups start) (run v fuel fuel)
          (spawn_all-Balance streams fuel few enough lookups 0 0 start some_stream started)
          (λ w b. drain w b.tasks b.holds b.shared b.found b.counted))
        (λ w d.
          Returns->>= _ (run v fuel fuel w) _
            (drain w [] d.empty (omega (arith, d.limit)) (omega (arith, d.found))
              (omega (arith, d.counted)))
            (λ w' d'.
              (omega (arith, d.found), ground (arith, d.counted), d'.empty.valid, d'.empty.listed)))
    where
      start : World
      start = record { queue = queue; limit = streams; found_count = 0; not_found_count = 0 }

      started : Balance v streams 0 0 start
      started = record {
        tasks = [];
        holds = record { valid = valid; listed = empty; live = tt };
        shared = omega arith;
        found = omega arith;
        counted = omega arith;
      }

      drain :
          (w : World) (ts : List Task)
          → Holds v w.queue ts
          → w.limit + length ts ≡ streams
          → w.found_count + pending v ts ≡ 0 + found_count v lookups
          → w.found_count + w.not_found_count + length ts ≡ 0 + length lookups
          → Returns
              (run v fuel fuel w)
              (Drained streams fuel few enough (0 + length lookups) (0 + found_count v lookups))
      drain w ts h shared found counted =
          run-Drained streams fuel few enough fuel (0 + length lookups) (0 + found_count v lookups)
            w ts (grind arith) h shared found counted
