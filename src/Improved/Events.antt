-- ===== src/Improved/Events.antt =====
-- A reader of Improved.cpp and a reader of Traditional.cpp, on the same completions.
use await.Base.{
  ℕ, ◌-◌, ◌≡◌, refl, ap, subst, Bool, true, false, List, [], ◌∷◌, ltb, arith, if◌then◌else◌,
}
use await.Pal.{WsaResult, WorkTracker}
use await.Traditional
use await.Improved
use await.Improved.Same.{Same, delete-Same, connect_loop-Same, read_loop-Same}

-- a completion, with the results of the calls that its handler makes
pub data Event : Type 0 where
  connected : (ec : Bool) (results : List WsaResult) → Event
  read : (ec : Bool) (bytes : ℕ) (results : List WsaResult) → Event

-- A completion runs its handler if the reader has such an operation under way.
unfoldable pub traditional_event :
    Bool → Event → Traditional.Reader × WorkTracker → Traditional.Reader × WorkTracker
unfolding Traditional.on_connect Traditional.on_read
traditional_event sync (connected ec results) (r, t) =
    if ltb 0 r.connecting
    then Traditional.on_connect sync ec results (record r { connecting = r.connecting - 1 }) t
    else (r, t)
traditional_event sync (read ec bytes results) (r, t) =
    if ltb 0 r.reading
    then Traditional.on_read sync ec bytes results (record r { reading = r.reading - 1 }) t
    else (r, t)

unfoldable pub improved_event :
    Bool → Event → Improved.Reader × WorkTracker → Improved.Reader × WorkTracker
unfolding Improved.on_connect Improved.on_read
improved_event sync (connected ec results) (r, t) =
    if ltb 0 r.connecting
    then Improved.on_connect sync ec results (record r { connecting = r.connecting - 1 }) t
    else (r, t)
improved_event sync (read ec bytes results) (r, t) =
    if ltb 0 r.reading
    then Improved.on_read sync ec bytes results (record r { reading = r.reading - 1 }) t
    else (r, t)

unfoldable pub traditional_run :
    Bool → ℕ → List Event → WorkTracker → Traditional.Reader × WorkTracker
unfolding traditional_event
traditional_run sync total [] t = (Traditional.start total, t)
traditional_run sync total (e ∷ es) t = traditional_event sync e (traditional_run sync total es t)

unfoldable pub improved_run : Bool → ℕ → List Event → WorkTracker → Improved.Reader × WorkTracker
unfolding improved_event
improved_run sync total [] t = (Improved.start total, t)
improved_run sync total (e ∷ es) t = improved_event sync e (improved_run sync total es t)

-- A test on equal numbers, with the same operation taken off on both sides.
module _ (a : Traditional.Reader) (b : Improved.Reader) (t u : WorkTracker)
    (h : Same (a, t) (b, u)) where
  connected-Same :
      Same
        (record a { connecting = a.connecting - 1 }, t)
        (record b { connecting = b.connecting - 1 }, u)
  connected-Same = record {
    total = h.total;
    connecting = ap (λ n. n - 1) h.connecting;
    reading = h.reading;
    deleted = h.deleted;
    tracker = h.tracker;
    two_handlers = h.two_handlers;
    freed_with_reader = h.freed_with_reader;
    leaks = h.leaks;
  }

  read-Same :
      Same (record a { reading = a.reading - 1 }, t) (record b { reading = b.reading - 1 }, u)
  read-Same = record {
    total = h.total;
    connecting = h.connecting;
    reading = ap (λ n. n - 1) h.reading;
    deleted = h.deleted;
    tracker = h.tracker;
    two_handlers = h.two_handlers;
    freed_with_reader = h.freed_with_reader;
    leaks = omega (arith, h.leaks);
  }

  guarded :
      (p q : Bool) (x : Traditional.Reader × WorkTracker) (y : Improved.Reader × WorkTracker)
      → p ≡ q
      → Same x y
      → Same (if p then x else (a, t)) (if q then y else (b, u))
  guarded p q x y e k =
      subst (λ q. Same (if p then x else (a, t)) (if q then y else (b, u))) e (by_test p)
    where
      by_test : (p : Bool) → Same (if p then x else (a, t)) (if p then y else (b, u))
      by_test true = k
      by_test false = h

event-Same :
    (sync : Bool) (e : Event) (x : Traditional.Reader × WorkTracker)
    (y : Improved.Reader × WorkTracker)
    → Same x y
    → Same (traditional_event sync e x) (improved_event sync e y)
unfolding traditional_event improved_event Traditional.on_connect Improved.on_connect
    Traditional.on_read Improved.on_read
event-Same sync (connected true results) (a, t) (b, u) h =
    guarded a b t u h _ _ _ _ (ap (ltb 0) h.connecting)
      (delete-Same _ _ t u (connected-Same a b t u h))
event-Same sync (connected false results) (a, t) (b, u) h =
    guarded a b t u h _ _ _ _ (ap (ltb 0) h.connecting)
      (connect_loop-Same sync results _ _ t u (connected-Same a b t u h))
event-Same sync (read true bytes results) (a, t) (b, u) h =
    guarded a b t u h _ _ _ _ (ap (ltb 0) h.reading) (delete-Same _ _ t u (read-Same a b t u h))
event-Same sync (read false bytes results) (a, t) (b, u) h =
    guarded a b t u h _ _ _ _ (ap (ltb 0) h.reading)
      (read_loop-Same sync results bytes _ _ t u (read-Same a b t u h))

-- For every sequence of completions the readers of Traditional.cpp and Improved.cpp have the same count
-- left, the same operations under way and the same deletions, and leave the tracker the same; the second
-- makes two handlers in all and frees one with each deletion, and of the first's handlers more are never
-- freed than have a read under way.
pub improved-Same :
    (sync : Bool) (total : ℕ) (es : List Event) (t : WorkTracker)
    → Same (traditional_run sync total es t) (improved_run sync total es t)
unfolding traditional_run improved_run Traditional.start Improved.start
improved-Same sync total [] t = record {
  total = refl;
  connecting = refl;
  reading = refl;
  deleted = refl;
  tracker = refl;
  two_handlers = refl;
  freed_with_reader = refl;
  leaks = omega arith;
}
improved-Same sync total (e ∷ es) t =
    event-Same sync e (traditional_run sync total es t) (improved_run sync total es t)
      (improved-Same sync total es t)
