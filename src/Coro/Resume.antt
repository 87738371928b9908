-- ===== src/Coro/Resume.antt =====
-- `h.resume()`: a chain of tasks that hand control on, until one of them returns.
use await.Base.{
  ℕ, zero, suc, ◌+◌, ◌^◌, ◌<◌, Bool, Option, some, List, [], ◌∷◌, ◌++◌, map, ◌≡◌, refl, ap, ◌∙◌,
  sym, length, length-append, total, total-append, to_ℕ, ℤ, done, Returns, Returns_mono, arith,
}
use mathlib.Core.List.{map-append}
use await.Scheduler.{SchedulerQueue, push_back, pop_front}
use await.Scheduler.Fifo.{
  IsValid, contents, size, length-contents, push_back-IsValid, push_back-contents,
  pop_front-IsValid, pop_front-contents,
}
use await.Coro.{Task, Pause, suspends, returns, World, return_void, coro_step, resume}
use await.Coro.Step.{answer, weight, IsLive, Steps, coro_step-Steps}

module _ (v : List ℤ) where
  abbrev pub AllLive : List Task → Type 0
  AllLive [] = Unit
  AllLive (t ∷ ts) = IsLive v t × AllLive ts

  AllLive-snoc : (ts : List Task) (t : Task) → AllLive ts → IsLive v t → AllLive (ts ++ (t ∷ []))
  AllLive-snoc [] t h live = (live, tt)
  AllLive-snoc (t' ∷ ts) t h live = (h.0, AllLive-snoc ts t h.1 live)

  -- The ring holds these tasks, in this order, and all of them may be resumed.
  pub record Holds (q : SchedulerQueue Task) (ts : List Task) : Type 0 where
    pub valid : IsValid q
    pub listed : contents q ≡ map some ts
    pub live : AllLive ts

  pub size-Holds : (q : SchedulerQueue Task) (ts : List Task) → Holds q ts → size q ≡ length ts
  size-Holds q ts h = sym (length-contents q) ∙ ap length h.listed ∙ mapped ts
    where
      mapped : (ts : List Task) → length (map {B = Option Task} some ts) ≡ length ts
      mapped [] = refl
      mapped (t ∷ ts) = ap suc (mapped ts)

  pub push-Holds :
      (q : SchedulerQueue Task) (ts : List Task) (t : Task)
      → Holds q ts
      → length ts < 255
      → IsLive v t
      → Holds (push_back (some t) q) (ts ++ (t ∷ []))
  push-Holds q ts t h room live = record {
    valid = push_back-IsValid (some t) h.valid;
    listed =
        push_back-contents (some t) h.valid (omega (arith, size-Holds q ts h))
        ∙ ap (λ l. l ++ (some t ∷ [])) h.listed
        ∙ sym (map-append some ts (t ∷ []));
    live = AllLive-snoc ts t h.live live;
  }

  pub pop-Holds :
      (q : SchedulerQueue Task) (t : Task) (ts : List Task)
      → Holds q (t ∷ ts)
      → ((pop_front q).0 ≡ some t) × Holds (pop_front q).1 ts
  pop-Holds q t ts h =
      let c : (pop_front q).0 ∷ contents (pop_front q).1 ≡ some t ∷ map some ts =
        sym (pop_front-contents h.valid (omega (arith, size-Holds q (t ∷ ts) h))) ∙ h.listed in
      (cc, record { valid = pop_front-IsValid h.valid; listed = cc; live = h.live.1 })

  -- A task that suspends goes to the back, and the task at the front runs next.
  record Rotated (ts : List Task) (t : Task) (q : SchedulerQueue Task) : Type 0 where
    next : Task
    rest : List Task
    popped : (pop_front q).0 ≡ some next
    holds : Holds (pop_front q).1 rest
    live : IsLive v next
    size : length rest ≡ length ts
    totals : (w : Task → ℕ) → w next + total w rest ≡ total w ts + w t

  rotate :
      (q : SchedulerQueue Task) (ts : List Task) (t : Task)
      → Holds q ts
      → length ts < 255
      → IsLive v t
      → Rotated ts t (push_back (some t) q)
  rotate q [] t h room live =
      let (popped, holds) = pop-Holds (push_back (some t) q) t [] (push-Holds q [] t h room live) in
      record {
        next = t;
        rest = [];
        popped = popped;
        holds = holds;
        live = live;
        size = refl;
        totals = λ w. omega arith;
      }
  rotate q (t' ∷ ts) t h room live =
      let (popped, holds) =
        pop-Holds (push_back (some t) q) t' (ts ++ (t ∷ []))
          (push-Holds q (t' ∷ ts) t h room live) in
      record {
        next = t';
        rest = ts ++ (t ∷ []);
        popped = popped;
        holds = holds;
        live = h.live.0;
        size = omega (arith, length-append ts (t ∷ []));
        totals = λ w. omega (arith, total-append w ts (t ∷ []));
      }

  -- the number of keys that these tasks will report as found
  abbrev pub pending : List Task → ℕ
  pending = total (λ t. to_ℕ (answer v t))

  -- One task has returned: `others` wait in the queue, `limit` has grown by one, and the counts have
  -- grown by its answer. The first three numbers are the fields of the world before.
  pub record Ended (limit found not_found others answers : ℕ) (w : World) : Type 0 where
    pub tasks : List Task
    pub holds : Holds w.queue tasks
    pub left : length tasks ≡ others
    pub limit_up : w.limit ≡ limit + 1
    pub found_up : w.found_count + pending tasks ≡ found + answers
    pub counted : w.found_count + w.not_found_count ≡ found + not_found + 1

  abbrev pub EndedFrom : World → ℕ → ℕ → World → Type 0
  EndedFrom w = Ended w.limit w.found_count w.not_found_count

  returned :
      (w : World) (t : Task) (ts : List Task) (found : Bool)
      → w.limit + 1 < 2 ^ 32
      → IsLive v t
      → Holds w.queue ts
      → found ≡ answer v t
      → Returns (return_void t found w) (EndedFrom w (length ts) (to_ℕ (answer v t) + pending ts))
  returned w t ts found small live h e = rw live.owned (record {
    tasks = ts;
    holds = h;
    left = refl;
    limit_up = omega arith;
    found_up = ground (arith, e);
    counted = ground arith;
  })

  -- what comes after one step of the task `t`
  after_step :
      (fuel : ℕ) (t : Task) (w : World) (ts : List Task)
      → w.limit + 1 < 2 ^ 32
      → IsLive v t
      → Holds w.queue ts
      → length ts < 255
      → weight v t + total (weight v) ts < suc fuel
      → ((t' : Task) (w' : World) (ts' : List Task)
          → w'.limit + 1 < 2 ^ 32
          → IsLive v t'
          → Holds w'.queue ts'
          → length ts' < 255
          → weight v t' + total (weight v) ts' < fuel
          → Returns
              (resume v fuel t' w')
              (EndedFrom w' (length ts') (to_ℕ (answer v t') + pending ts')))
      → (out : Pause) → coro_step v t ≡ done out
      → Steps v t out
      → Returns (resume v (suc fuel) t w) (EndedFrom w (length ts) (to_ℕ (answer v t) + pending ts))
  unfolding resume
  after_step fuel t w ts small live h room enough ih (returns found) e steps =
      rw (e, resume) (returned w t ts found small live h steps)
  after_step fuel t w ts small live h room enough ih (suspends t') e steps =
      rw (e, r.popped, resume)
        (Returns_mono _ relabel (
          ih r.next (record w { queue = (pop_front (push_back (some t') w.queue)).1 }) r.rest small
            r.live r.holds (omega (arith, r.size)) (omega (arith, r.totals (weight v), steps.2))))
    where
      r : Rotated ts t' (push_back (some t') w.queue)
      r = rotate w.queue ts t' h room steps.0

      relabel :
          (w' : World)
          → EndedFrom w (length r.rest) (to_ℕ (answer v r.next) + pending r.rest) w'
          → EndedFrom w (length ts) (to_ℕ (answer v t) + pending ts) w'
      relabel w' done_one = record {
        tasks = done_one.tasks;
        holds = done_one.holds;
        left = done_one.left ∙ r.size;
        limit_up = done_one.limit_up;
        found_up =
            omega (arith, done_one.found_up, r.totals (λ t. to_ℕ (answer v t)), ap to_ℕ steps.1);
        counted = done_one.counted;
      }

  -- With fewer than 255 tasks waiting and more fuel than is left to search, `resume` ends, and one
  -- task has returned.
  pub resume-Ended :
      (fuel : ℕ) (t : Task) (w : World) (ts : List Task)
      → w.limit + 1 < 2 ^ 32
      → IsLive v t
      → Holds w.queue ts
      → length ts < 255
      → weight v t + total (weight v) ts < fuel
      → Returns (resume v fuel t w) (EndedFrom w (length ts) (to_ℕ (answer v t) + pending ts))
  resume-Ended zero t w ts small live h room enough = absurd (omega arith)
  resume-Ended (suc fuel) t w ts small live h room enough =
      let (out, e, steps) = coro_step-Steps v t live in
      after_step fuel t w ts small live h room enough (resume-Ended fuel) out e steps
