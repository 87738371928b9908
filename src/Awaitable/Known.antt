-- ===== src/Awaitable/Known.antt =====
-- The handles that are associated with the thread pool in the runs of Awaitable.cpp.
use await.Base.{
  ℕ, ◌+◌, ◌≡◌, refl, ap, subst, ◌∙◌, Bool, true, false, to_ℕ, ltb, List, ◌∷◌, ◌++◌, Every,
  Every-split, arith, if◌then◌else◌,
}
use await.Pal.Queue.{Ends, returns, exits, Process}
use await.Pal.Pool.{associate_handle}
use await.Pal.Effects.{and_then-returns}
use await.Traditional.Known.{
  known, times, IsKnown, associate_handle-known, still_known, now_known, new_handle,
}
use await.Traditional.Associated.{no_handle}
use await.Awaitable.Handles.{
  Net, join_pool, listen, accept_suspend, accept_resume, connect_suspend, connect_resume, Step,
  listens, accepts, accepted, connects, connected, goes_on, Reach, begins, goes,
}

abbrev pub Known : Net → List ℕ → Type 0
Known n l = Every (IsKnown (known n.process.queue)) l

-- Every socket is associated just once.
pub record AllKnown (n : Net) : Type 0 where
  pub once : (h : ℕ) → times h (known n.process.queue) ≡ to_ℕ (ltb h n.opened)
  pub listening : Known n n.listeners
  pub accepting : Known n n.accepting
  pub connecting : Known n n.connecting
  pub connected : Known n n.connections
  pub started : Known n n.started

join_pool-AllKnown :
    (modes_ok port_ok : Bool) (fn : ℕ) (n m : Net)
    → AllKnown n
    → join_pool modes_ok port_ok fn n ≡ returns m
    → AllKnown m
      × IsKnown (known m.process.queue) n.opened
      × (m ≡ record n { process = m.process; opened = n.opened + 1 })
join_pool-AllKnown modes_ok port_ok fn n m a e =
    let next = λ (p : Process). record n { process = p; opened = n.opened + 1 } in
    let (p, made, e') =
      and_then-returns (associate_handle modes_ok port_ok n.opened fn n.process)
        (λ p. returns (next p)) m e in
    let k = associate_handle-known modes_ok port_ok n.opened fn n.process p made in
    let same : next p ≡ m = cc in
    let l = known n.process.queue in
    let l' = known p.queue in
    subst
      (λ m.
        AllKnown m
        × IsKnown (known m.process.queue) n.opened
        × (m ≡ record n { process = m.process; opened = n.opened + 1 }))
      same
      (
        record {
          once = λ h. omega (arith, a.once h, ap (times h) k, new_handle h n.opened);
          listening = still_known l l' n.opened fn n.listeners k a.listening;
          accepting = still_known l l' n.opened fn n.accepting k a.accepting;
          connecting = still_known l l' n.opened fn n.connecting k a.connecting;
          connected = still_known l l' n.opened fn n.connections k a.connected;
          started = still_known l l' n.opened fn n.started k a.started;
        },
        now_known l l' n.opened fn k,
        refl,
      )

pub chosen :
    {A : Type 0} (b : Bool) (x y : A)
    → Path (Ends A) (if b then returns x else exits 1) (returns y)
    → x ≡ y
chosen true x y e = cc
chosen false x y e = absurd (cc)

known_at :
    (n : Net) (l before after : List ℕ) (h : ℕ)
    → l ≡ before ++ (h ∷ after)
    → Known n l
    → IsKnown (known n.process.queue) h × Known n (before ++ after)
known_at n l before after h e k =
    Every-split (IsKnown (known n.process.queue)) before h after (subst (Known n) e k)

listen-AllKnown :
    (bind_ok modes_ok port_ok listen_ok : Bool) (fn : ℕ) (n n' : Net)
    → AllKnown n
    → listen bind_ok modes_ok port_ok listen_ok fn n ≡ returns n'
    → AllKnown n'
unfolding listen
listen-AllKnown false modes_ok port_ok listen_ok fn n n' a e = absurd (cc)
listen-AllKnown true modes_ok port_ok listen_ok fn n n' a e =
    let next = λ (m : Net). record m { listeners = n.opened ∷ m.listeners } in
    let (m, joined, e') =
      and_then-returns (join_pool modes_ok port_ok fn n)
        (λ m. if listen_ok then returns (next m) else exits 1) n' e in
    let (b, here, _) = join_pool-AllKnown modes_ok port_ok fn n m a joined in
    subst AllKnown (chosen listen_ok (next m) n' e') (record {
      once = b.once;
      listening = (here, b.listening);
      accepting = b.accepting;
      connecting = b.connecting;
      connected = b.connected;
      started = b.started;
    })

accept_suspend-AllKnown :
    (modes_ok port_ok pending : Bool) (fn h : ℕ) (n n' : Net) (before after : List ℕ)
    → AllKnown n
    → n.listeners ≡ before ++ (h ∷ after)
    → accept_suspend modes_ok port_ok pending fn h n ≡ returns n'
    → AllKnown n'
unfolding accept_suspend
accept_suspend-AllKnown modes_ok port_ok pending fn h n n' before after a at e =
    let next =
      λ (m : Net). record m { accepting = n.opened ∷ m.accepting; started = h ∷ m.started } in
    let (m, joined, e') =
      and_then-returns (join_pool modes_ok port_ok fn n)
        (λ m. if pending then returns (next m) else exits 1) n' e in
    let (b, here, same) = join_pool-AllKnown modes_ok port_ok fn n m a joined in
    let listener =
      known_at m m.listeners before after h (ap (λ (x : Net). x.listeners) same ∙ at) b.listening in
    subst AllKnown (chosen pending (next m) n' e') (record {
      once = b.once;
      listening = b.listening;
      accepting = (here, b.accepting);
      connecting = b.connecting;
      connected = b.connected;
      started = (listener.0, b.started);
    })

connect_suspend-AllKnown :
    (bind_ok modes_ok port_ok pending : Bool) (fn : ℕ) (n n' : Net)
    → AllKnown n
    → connect_suspend bind_ok modes_ok port_ok pending fn n ≡ returns n'
    → AllKnown n'
unfolding connect_suspend
connect_suspend-AllKnown false modes_ok port_ok pending fn n n' a e = absurd (cc)
connect_suspend-AllKnown true modes_ok port_ok pending fn n n' a e =
    let next = λ (m : Net). record m {
      connecting = n.opened ∷ m.connecting;
      started = n.opened ∷ m.started;
    } in
    let (m, joined, e') =
      and_then-returns (join_pool modes_ok port_ok fn n)
        (λ m. if pending then returns (next m) else exits 1) n' e in
    let (b, here, _) = join_pool-AllKnown modes_ok port_ok fn n m a joined in
    subst AllKnown (chosen pending (next m) n' e') (record {
      once = b.once;
      listening = b.listening;
      accepting = b.accepting;
      connecting = (here, b.connecting);
      connected = b.connected;
      started = (here, b.started);
    })

connect_resume-AllKnown :
    (err : Bool) (h : ℕ) (n n' : Net) (before after : List ℕ)
    → AllKnown n
    → n.connecting ≡ before ++ (h ∷ after)
    → connect_resume err h (before ++ after) n ≡ returns n'
    → AllKnown n'
unfolding connect_resume
connect_resume-AllKnown true h n n' before after a at e = absurd (cc)
connect_resume-AllKnown false h n n' before after a at e =
    let (here, rest) = known_at n n.connecting before after h at a.connecting in
    let next : Net = record n { connecting = before ++ after; connections = h ∷ n.connections } in
    let same : next ≡ n' = cc in
    subst AllKnown same (record {
      once = a.once;
      listening = a.listening;
      accepting = a.accepting;
      connecting = rest;
      connected = (here, a.connected);
      started = a.started;
    })

Step-AllKnown : {fn : ℕ} {n n' : Net} → Step fn n n' → AllKnown n → AllKnown n'
unfolding accept_resume
Step-AllKnown {fn = fn} {n = n} {n' = n'} (listens bind_ok modes_ok port_ok listen_ok e) a =
    listen-AllKnown bind_ok modes_ok port_ok listen_ok fn n n' a e
Step-AllKnown {fn = fn} {n = n} {n' = n'} (accepts before after h modes_ok port_ok pending at e) a =
    accept_suspend-AllKnown modes_ok port_ok pending fn h n n' before after a at e
Step-AllKnown {n = n} (accepted before after h at) a =
    let (here, rest) = known_at n n.accepting before after h at a.accepting in
    record {
      once = a.once;
      listening = a.listening;
      accepting = rest;
      connecting = a.connecting;
      connected = (here, a.connected);
      started = a.started;
    }
Step-AllKnown {fn = fn} {n = n} {n' = n'} (connects bind_ok modes_ok port_ok pending e) a =
    connect_suspend-AllKnown bind_ok modes_ok port_ok pending fn n n' a e
Step-AllKnown {n = n} {n' = n'} (connected before after h err at e) a =
    connect_resume-AllKnown err h n n' before after a at e
Step-AllKnown {n = n} (goes_on before after h at) a =
    let (here, _) = known_at n n.connections before after h at a.connected in
    record {
      once = a.once;
      listening = a.listening;
      accepting = a.accepting;
      connecting = a.connecting;
      connected = a.connected;
      started = (here, a.started);
    }

pub awaitable-AllKnown :
    {fn threads : ℕ} {sync : Bool} {n : Net} → Reach fn threads sync n → AllKnown n
awaitable-AllKnown begins = record {
  once = λ h. omega (arith, no_handle h);
  listening = tt;
  accepting = tt;
  connecting = tt;
  connected = tt;
  started = tt;
}
awaitable-AllKnown (goes r s) = Step-AllKnown s (awaitable-AllKnown r)
