-- ===== src/Improved/Same.antt =====
-- Readers of Traditional.cpp and Improved.cpp, side by side in each call and each loop.
use await.Base.{
  ℕ, ◌+◌, ◌-◌, ◌<◌, ◌≡◌, refl, ap, subst, Bool, true, false, List, [], ◌∷◌, ◌==◌, leb, arith,
  if◌then◌else◌, ◌||◌,
}
use await.Pal.{
  WsaResult, socket_error, io_pending, reader_size, receive, Called, again, under_way, invoked,
  WorkTracker, release_work,
}
use await.Traditional
use await.Improved

pub record Same (a : Traditional.Reader × WorkTracker) (b : Improved.Reader × WorkTracker)
    : Type 0 where
  pub total : a.0.total ≡ b.0.total
  pub connecting : a.0.connecting ≡ b.0.connecting
  pub reading : a.0.reading ≡ b.0.reading
  pub deleted : a.0.deleted ≡ b.0.deleted
  pub tracker : a.1 ≡ b.1
  pub two_handlers : b.0.made ≡ 2
  pub freed_with_reader : b.0.freed ≡ b.0.deleted
  pub leaks : a.0.freed + a.0.reading < a.0.made

conn_read-Same :
    (sync : Bool) (result : WsaResult) (a : Traditional.Reader) (b : Improved.Reader)
    (t u : WorkTracker)
    → Same (a, t) (b, u)
    → ((Traditional.conn_read sync result a).0 ≡ (Improved.conn_read sync result b).0)
      × Same ((Traditional.conn_read sync result a).1, t) ((Improved.conn_read sync result b).1, u)
unfolding Traditional.conn_read Improved.conn_read
conn_read-Same sync result a b t u h = (
  called (receive sync result == io_pending) (receive sync result == 0),
  step (receive sync result == io_pending) (receive sync result == 0),
)
  where
    old : Bool → Bool → Called × Traditional.Reader
    old p q =
        if p
        then (again, record a { made = a.made + 1; freed = a.freed + 1 })
        else if q
        then (under_way, record a { made = a.made + 1; reading = a.reading + 1 })
        else (invoked, record a { made = a.made + 1 })

    new : Bool → Bool → Called × Improved.Reader
    new p q =
        if p
        then (again, b)
        else if q
        then (under_way, record b { reading = b.reading + 1 })
        else (invoked, b)

    called : (p q : Bool) → (old p q).0 ≡ (new p q).0
    called true q = refl
    called false true = refl
    called false false = refl

    step : (p q : Bool) → Same ((old p q).1, t) ((new p q).1, u)
    step true q = record {
      total = h.total;
      connecting = h.connecting;
      reading = h.reading;
      deleted = h.deleted;
      tracker = h.tracker;
      two_handlers = h.two_handlers;
      freed_with_reader = h.freed_with_reader;
      leaks = omega (arith, h.leaks);
    }
    step false true = record {
      total = h.total;
      connecting = h.connecting;
      reading = ap (λ n. n + 1) h.reading;
      deleted = h.deleted;
      tracker = h.tracker;
      two_handlers = h.two_handlers;
      freed_with_reader = h.freed_with_reader;
      leaks = omega (arith, h.leaks);
    }
    step false false = record {
      total = h.total;
      connecting = h.connecting;
      reading = h.reading;
      deleted = h.deleted;
      tracker = h.tracker;
      two_handlers = h.two_handlers;
      freed_with_reader = h.freed_with_reader;
      leaks = omega (arith, h.leaks);
    }

module _ (a : Traditional.Reader) (b : Improved.Reader) (t u : WorkTracker)
    (h : Same (a, t) (b, u)) where
  pub delete-Same : Same (Traditional.on_error a t) (Improved.on_error b u)
  unfolding Traditional.on_error Improved.on_error
  delete-Same = record {
    total = h.total;
    connecting = h.connecting;
    reading = h.reading;
    deleted = ap (λ n. n + 1) h.deleted;
    tracker = ap release_work h.tracker;
    two_handlers = h.two_handlers;
    freed_with_reader = ap (λ n. n + 1) h.freed_with_reader;
    leaks = h.leaks;
  }

  after_call-Same :
      (called called' : Called) (next : Traditional.Reader × WorkTracker)
      (next' : Improved.Reader × WorkTracker)
      → called ≡ called'
      → Same next next'
      → Same (Traditional.after_call called next a t) (Improved.after_call called' next' b u)
  after_call-Same called called' next next' e k =
      subst (λ c. Same (Traditional.after_call called next a t) (Improved.after_call c next' b u)) e
        (by_end called)
    where
      by_end :
          (c : Called) → Same (Traditional.after_call c next a t) (Improved.after_call c next' b u)
      by_end again = k
      by_end under_way = h
      by_end invoked = delete-Same

  count-Same : (bytes : ℕ) → Same (Traditional.count bytes a, t) (Improved.count bytes b, u)
  count-Same bytes = record {
    total = ap (λ n. n - bytes) h.total;
    connecting = h.connecting;
    reading = h.reading;
    deleted = h.deleted;
    tracker = h.tracker;
    two_handlers = h.two_handlers;
    freed_with_reader = h.freed_with_reader;
    leaks = h.leaks;
  }

module _ (sync : Bool) where
  pub connect_loop-Same :
      (results : List WsaResult) (a : Traditional.Reader) (b : Improved.Reader) (t u : WorkTracker)
      → Same (a, t) (b, u)
      → Same (Traditional.connect_loop sync results a t) (Improved.connect_loop sync results b u)
  connect_loop-Same [] a b t u h = (conn_read-Same sync (socket_error io_pending) a b t u h).1
  connect_loop-Same (result ∷ results) a b t u h =
      let (e, k) = conn_read-Same sync result a b t u h in
      after_call-Same _ _ t u k _ _ _ _ e (connect_loop-Same results _ _ t u k)

  end-Same :
      (p q : Bool) (a : Traditional.Reader) (b : Improved.Reader) (t u : WorkTracker)
      (x : Traditional.Reader × WorkTracker) (y : Improved.Reader × WorkTracker)
      → p ≡ q
      → Same (a, t) (b, u)
      → Same x y
      → Same
          (if p then Traditional.on_complete a t else x)
          (if q then Improved.on_complete b u else y)
  unfolding Traditional.on_complete Improved.on_complete Traditional.on_error Improved.on_error
  end-Same p q a b t u x y e h k =
      subst
        (λ q.
          Same (if p then Traditional.on_complete a t else x)
            (if q then Improved.on_complete b u else y))
        e (by_test p)
    where
      by_test :
          (p : Bool)
          → Same
              (if p then Traditional.on_complete a t else x)
              (if p then Improved.on_complete b u else y)
      by_test true = delete-Same a b t u h
      by_test false = k

  pub read_loop-Same :
      (results : List WsaResult) (bytes : ℕ) (a : Traditional.Reader) (b : Improved.Reader)
      (t u : WorkTracker)
      → Same (a, t) (b, u)
      → Same
          (Traditional.read_loop sync results bytes a t)
          (Improved.read_loop sync results bytes b u)
  read_loop-Same [] bytes a b t u h =
      let k = count-Same a b t u h bytes in
      end-Same _ _ _ _ t u _ _ (ap (λ n. leb n 0 || bytes == 0) k.total) k
        (conn_read-Same sync (socket_error io_pending) _ _ t u k).1
  read_loop-Same (result ∷ results) bytes a b t u h =
      let k = count-Same a b t u h bytes in
      let (e, k') =
        conn_read-Same sync result (Traditional.count bytes a) (Improved.count bytes b) t u k in
      end-Same _ _ _ _ t u _ _ (ap (λ n. leb n 0 || bytes == 0) k.total) k
        (after_call-Same _ _ t u k' _ _ _ _ e (read_loop-Same results reader_size _ _ t u k'))
