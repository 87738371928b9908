-- ===== src/Traditional/Associated.antt =====
-- The handles that are associated with the thread pool in the runs of Traditional.cpp.
use await.Base.{
  ℕ, ◌+◌, ◌≡◌, ap, subst, Bool, true, false, to_ℕ, ltb, List, [], ◌∷◌, ◌++◌, some, total_split,
  Every, Every-split, ◌==◌, arith,
}
use await.Pal.Queue.{returns, exits, Process}
use await.Pal.Pool.{associate_handle}
use await.Pal.Threads.{made}
use await.Pal.Effects.{and_then-returns}
use await.Traditional.Handles.{
  Net, listen, accept_on, invoke, connect_new, Step, listens, accepts, invokes, connects, goes_on,
}
use await.Traditional.Known.{
  known, times, copies_of, IsKnown, associate_handle-known, still_known, now_known, new_handle,
}

pub record Associated (n : Net) : Type 0 where
  pub once :
      (h : ℕ) → times h (known n.process.queue) + copies_of h n.waiting ≡ to_ℕ (ltb h n.opened)
  pub listening : Every (IsKnown (known n.process.queue)) n.listeners
  pub connected : Every (IsKnown (known n.process.queue)) n.connections
  pub started : Every (IsKnown (known n.process.queue)) n.started

listen-Associated :
    (bind_ok modes_ok port_ok listen_ok : Bool) (fn : ℕ) (n n' : Net)
    → Associated n
    → listen bind_ok modes_ok port_ok listen_ok fn n ≡ returns n'
    → Associated n'
unfolding listen
listen-Associated false modes_ok port_ok listen_ok fn n n' a e = absurd (cc)
listen-Associated true modes_ok port_ok false fn n n' a e = absurd (
    no_return
      (and_then-returns (associate_handle modes_ok port_ok n.opened fn n.process) (λ p. exits 1) n'
        e).2)
  where
    no_return : exits 1 ≡ returns n' → ⊥
    no_return x = cc
listen-Associated true modes_ok port_ok true fn n n' a e =
    let (p, made, e') =
      and_then-returns (associate_handle modes_ok port_ok n.opened fn n.process)
        (λ p.
          returns
            (record n { process = p; opened = n.opened + 1; listeners = n.opened ∷ n.listeners }))
        n' e in
    let k = associate_handle-known modes_ok port_ok n.opened fn n.process p made in
    let same : record n { process = p; opened = n.opened + 1; listeners = n.opened ∷ n.listeners }
        ≡ n' =
      cc in
    subst Associated same (record {
      once = λ h. omega (arith, a.once h, ap (times h) k, new_handle h n.opened);
      listening = (
        now_known (known n.process.queue) (known p.queue) n.opened fn k,
        still_known (known n.process.queue) (known p.queue) n.opened fn n.listeners k a.listening,
      );
      connected =
          still_known (known n.process.queue) (known p.queue) n.opened fn n.connections k
            a.connected;
      started =
          still_known (known n.process.queue) (known p.queue) n.opened fn n.started k a.started;
    })

accept_on-Associated :
    (pending : Bool) (h : ℕ) (n n' : Net) (before after : List ℕ)
    → Associated n
    → n.listeners ≡ before ++ (h ∷ after)
    → accept_on pending h n ≡ returns n'
    → Associated n'
unfolding accept_on
accept_on-Associated false h n n' before after a at e = absurd (cc)
accept_on-Associated true h n n' before after a at e =
    let next : Net = record n {
      opened = n.opened + 1;
      waiting = n.opened ∷ n.waiting;
      started = h ∷ n.started;
    } in
    let same : next ≡ n' = cc in
    let here =
      (Every-split (IsKnown (known n.process.queue)) before h after
        (subst (Every (IsKnown (known n.process.queue))) at a.listening)).0 in
    subst Associated same (record {
      once = λ x. omega (arith, a.once x, new_handle x n.opened);
      listening = a.listening;
      connected = a.connected;
      started = (here, a.started);
    })

invoke-Associated :
    (modes_ok port_ok : Bool) (fn h : ℕ) (n n' : Net) (before after : List ℕ)
    → Associated n
    → n.waiting ≡ before ++ (h ∷ after)
    → invoke modes_ok port_ok fn h (before ++ after) n ≡ returns n'
    → Associated n'
unfolding invoke
invoke-Associated modes_ok port_ok fn h n n' before after a at e =
    let next = λ (p : Process). record n {
      process = p;
      waiting = before ++ after;
      connections = h ∷ n.connections;
      started = h ∷ n.started;
    } in
    let (p, made, e') =
      and_then-returns (associate_handle modes_ok port_ok h fn n.process) (λ p. returns (next p)) n'
        e in
    let k = associate_handle-known modes_ok port_ok h fn n.process p made in
    let same : next p ≡ n' = cc in
    let l = known n.process.queue in
    let new = now_known l (known p.queue) h fn k in
    subst Associated same (record {
      once = λ x. omega (
        arith,
        a.once x,
        ap (times x) k,
        ap (copies_of x) at,
        total_split (λ y. to_ℕ (y == x)) before h after,
      );
      listening = still_known l (known p.queue) h fn n.listeners k a.listening;
      connected = (new, still_known l (known p.queue) h fn n.connections k a.connected);
      started = (new, still_known l (known p.queue) h fn n.started k a.started);
    })

connect_new-Associated :
    (bind_ok modes_ok port_ok pending : Bool) (fn : ℕ) (n n' : Net)
    → Associated n
    → connect_new bind_ok modes_ok port_ok pending fn n ≡ returns n'
    → Associated n'
unfolding connect_new
connect_new-Associated false modes_ok port_ok pending fn n n' a e = absurd (cc)
connect_new-Associated true modes_ok port_ok false fn n n' a e = absurd (
    no_return
      (and_then-returns (associate_handle modes_ok port_ok n.opened fn n.process) (λ p. exits 1) n'
        e).2)
  where
    no_return : exits 1 ≡ returns n' → ⊥
    no_return x = cc
connect_new-Associated true modes_ok port_ok true fn n n' a e =
    let next = λ (p : Process). record n {
      process = p;
      opened = n.opened + 1;
      connections = n.opened ∷ n.connections;
      started = n.opened ∷ n.started;
    } in
    let (p, made, e') =
      and_then-returns (associate_handle modes_ok port_ok n.opened fn n.process)
        (λ p. returns (next p)) n' e in
    let k = associate_handle-known modes_ok port_ok n.opened fn n.process p made in
    let same : next p ≡ n' = cc in
    let l = known n.process.queue in
    let new = now_known l (known p.queue) n.opened fn k in
    subst Associated same (record {
      once = λ h. omega (arith, a.once h, ap (times h) k, new_handle h n.opened);
      listening = still_known l (known p.queue) n.opened fn n.listeners k a.listening;
      connected = (new, still_known l (known p.queue) n.opened fn n.connections k a.connected);
      started = (new, still_known l (known p.queue) n.opened fn n.started k a.started);
    })

pub Step-Associated : {fn : ℕ} {n n' : Net} → Step fn n n' → Associated n → Associated n'
Step-Associated {fn = fn} {n = n} {n' = n'} (listens bind_ok modes_ok port_ok listen_ok e) a =
    listen-Associated bind_ok modes_ok port_ok listen_ok fn n n' a e
Step-Associated {n = n} {n' = n'} (accepts before after h pending at e) a =
    accept_on-Associated pending h n n' before after a at e
Step-Associated {fn = fn} {n = n} {n' = n'} (invokes before after h modes_ok port_ok at e) a =
    invoke-Associated modes_ok port_ok fn h n n' before after a at e
Step-Associated {fn = fn} {n = n} {n' = n'} (connects bind_ok modes_ok port_ok pending e) a =
    connect_new-Associated bind_ok modes_ok port_ok pending fn n n' a e
Step-Associated {n = n} (goes_on before after h at) a = record {
  once = a.once;
  listening = a.listening;
  connected = a.connected;
  started = (
    (Every-split (IsKnown (known n.process.queue)) before h after
        (subst (Every (IsKnown (known n.process.queue))) at a.connected)).0,
    a.started,
  );
}

-- a pool that `n` threads serve, and no socket
abbrev pub no_sockets : ℕ → Bool → Net
no_sockets threads sync = record {
  process = record { queue = some (made threads); sync_completion = sync };
  opened = 0;
  listeners = [];
  waiting = [];
  connections = [];
  started = [];
}

pub data Reach (fn threads : ℕ) (sync : Bool) : Net → Type 0 where
  begins : Reach fn threads sync (no_sockets threads sync)
  goes : {n n' : Net} → Reach fn threads sync n → Step fn n n' → Reach fn threads sync n'

pub no_handle : (h : ℕ) → to_ℕ (ltb h 0) ≡ 0
no_handle h = ground arith

pub start-Associated : (threads : ℕ) (sync : Bool) → Associated (no_sockets threads sync)
start-Associated threads sync = record {
  once = λ h. omega (arith, no_handle h);
  listening = tt;
  connected = tt;
  started = tt;
}

pub traditional-Associated :
    {fn threads : ℕ} {sync : Bool} {n : Net} → Reach fn threads sync n → Associated n
traditional-Associated {threads = threads} {sync = sync} begins = start-Associated threads sync
traditional-Associated (goes r s) = Step-Associated s (traditional-Associated r)
