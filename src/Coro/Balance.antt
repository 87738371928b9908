-- ===== src/Coro/Balance.antt =====
-- `throttler`: the tasks and their units of the limit, as one of them is resumed.
use await.Base.{
  ℕ, suc, ◌+◌, ◌-◌, ◌*◌, ◌%◌, ◌^◌, ◌≤◌, ◌<◌, true, none, some, List, [], ◌∷◌, ◌≡◌, ap, length,
  total, to_ℕ, ℤ, done, Returns, Returns_mono, ◌>>=◌, arith,
}
use await.Scheduler.{SchedulerQueue, push_back, try_pop_front}
use await.Coro.{Task, Point, initial, at_prefetch, World, spawn, run, resume}
use await.Coro.Step.{answer, weight, InRange, IsLive, weight_at}
use await.Coro.Resume.{AllLive, Holds, pending, EndedFrom, resume-Ended}

-- After `spawn` has made room, the new task joins the queue.
abbrev pub push_spawned : Task → World → World
push_spawned t w = record w {
  queue = push_back (some (record t { owned = true })) w.queue;
  limit = (w.limit + 2 ^ 32 - 1) % 2 ^ 32;
}

module _ (v : List ℤ) where
  weight_at-le : (p : Point) → InRange v p → weight_at v p ≤ length v + 1
  weight_at-le (initial first last) h = omega arith
  weight_at-le (at_prefetch first len half middle) h = omega arith

  total-weight-le :
      (ts : List Task) → AllLive v ts → total (weight v) ts ≤ length ts * (length v + 1)
  total-weight-le [] h = omega arith
  total-weight-le (t ∷ ts) h =
      grind (arith, total-weight-le ts h.1, weight_at-le t.point h.0.in_range)

  pub spawn_of_room :
      (fuel : ℕ) (t : Task) (w : World) → 0 < w.limit → spawn v fuel t w ≡ done (push_spawned t w)
  unfolding spawn
  spawn_of_room fuel t w room = ground arith

  pub run_of_empty :
      (rounds fuel : ℕ) (w : World)
      → try_pop_front w.queue ≡ (none, w.queue)
      → run v (suc rounds) fuel w ≡ done w
  unfolding run
  run_of_empty rounds fuel w e =
      rw (ap (λ r. r.0) e, run) (ap (λ q. done (record w { queue = q })) (ap (λ r. r.1) e))

  pub run_of_some :
      (rounds fuel : ℕ) (w : World) (t : Task) (q : SchedulerQueue Task)
      → try_pop_front w.queue ≡ (some t, q)
      → run v (suc rounds) fuel w ≡ (resume v fuel t (record w { queue = q }) >>= run v rounds fuel)
  unfolding run
  run_of_some rounds fuel w t q e =
      rw (ap (λ r. r.0) e, run)
        (ap (λ q. resume v fuel t (record w { queue = q }) >>= run v rounds fuel) (ap (λ r. r.1) e))

  -- Every task has one unit of the limit; the counts and the tasks together account for all the
  -- `spawned` lookups and for those of them, `answers`, whose key is in the vector.
  pub record Balance (streams spawned answers : ℕ) (w : World) : Type 0 where
    pub tasks : List Task
    pub holds : Holds v w.queue tasks
    pub shared : w.limit + length tasks ≡ streams
    pub found : w.found_count + pending v tasks ≡ answers
    pub counted : w.found_count + w.not_found_count + length tasks ≡ spawned

  module _ (streams fuel : ℕ) (few : streams ≤ 255) (enough : streams * (length v + 1) < fuel) where
    within_fuel : (ts : List Task) → AllLive v ts → length ts ≤ streams → total (weight v) ts < fuel
    within_fuel ts live h = grind (arith, total-weight-le ts live)

    -- One task taken from the front and resumed: it returns, and frees its unit of the limit.
    pub resume-Balance :
        (spawned answers : ℕ) (w : World) (t : Task) (ts : List Task) (q : SchedulerQueue Task)
        → IsLive v t
        → Holds v q ts
        → w.limit + suc (length ts) ≡ streams
        → w.found_count + (to_ℕ (answer v t) + pending v ts) ≡ answers
        → w.found_count + w.not_found_count + suc (length ts) ≡ spawned
        → Returns
            (resume v fuel t (record w { queue = q }))
            (λ w'. Balance streams spawned answers w' × (w'.limit ≡ w.limit + 1))
    resume-Balance spawned answers w t ts q live h shared found counted = Returns_mono _ balanced (
        resume-Ended v fuel t (record w { queue = q }) ts (omega arith) live h (omega arith)
          (within_fuel (t ∷ ts) (live, h.live) (omega arith)))
      where
        balanced :
            (w' : World)
            → EndedFrom v (record w { queue = q }) (length ts) (to_ℕ (answer v t) + pending v ts) w'
            → Balance streams spawned answers w' × (w'.limit ≡ w.limit + 1)
        balanced w' e = (
          record {
            tasks = e.tasks;
            holds = e.holds;
            shared = omega (arith, e.limit_up, e.left);
            found = omega (arith, e.found_up);
            counted = omega (arith, e.counted, e.left);
          },
          e.limit_up,
        )
