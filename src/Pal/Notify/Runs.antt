-- ===== src/Pal/Notify/Runs.antt =====
-- How often each call is known to have ended, in every run.
use await.Base.{
  ℕ, suc, ◌+◌, ◌≡◌, refl, ap, sym, subst, ◌∙◌, Bool, true, false, List, [], ◌∷◌, ◌++◌, Option, none,
  some, total, total_split, Every, Every-split, ◌==◌, arith, if◌then◌else◌,
}
use await.Pal.Queue.{
  Ends, returns, exits, Packet, CompletionQueue, Process, Turn, calls, handle, thread_turn,
}
use await.Pal.Pool.{
  new_pool, associate_modes, post, stop_pool, destroy_pool, create, put, with_queue,
}
use await.Pal.Delivery.{overlapped_of}
use await.Pal.Effects.{
  packets_of, created_by, created_at, new_queue-packets, associated_at, posted_at, stopped_at,
  destroyed_at,
}
use await.Pal.Notify.{
  Handle, World, Step, creates, associates, receives, sends, posts, completes, serves, stops,
  destroys, Reach, begins, goes,
}
use await.Pal.Notify.Once.{
  one, ModesAt, KnownOnce, new_call, queued-total, queued-modes, pool_of, pool_under,
  received-KnownOnce, sent-KnownOnce,
}

-- what does not touch the packets
process-KnownOnce :
    (w : World) (p' : Process) (handles : List Handle)
    → packets_of p'.queue ≡ packets_of w.process.queue
    → ModesAt p'.queue handles w.under_way p'.sync_completion
    → KnownOnce w
    → KnownOnce (record w { process = p'; handles = handles })
process-KnownOnce w p' handles e m k = record {
  modes = m;
  once = λ c. omega (arith, k.once c, ap (total (λ p. one c (overlapped_of p.overlapped))) e);
}

created :
    (o : Option CompletionQueue) (port_ok : Bool) (ok : ℕ → Bool) (n : ℕ) (sync : Bool)
    (p p' : Process) (hs : List Handle) (us : List (ℕ × ℕ)) (s : Bool)
    → create o port_ok ok n sync p ≡ returns p'
    → ModesAt o hs us s
    → (packets_of p'.queue ≡ packets_of o) × ModesAt p'.queue hs us p'.sync_completion
created o port_ok ok n sync p p' hs us s e m =
    let (is_none, q, made, same) = created_at o port_ok ok n sync p p' e in
    let empty = new_queue-packets port_ok ok n q made in
    let no_handles : hs ≡ [] = (subst (λ o. ModesAt o hs us s) is_none m).0 in
    let own_mode : Handle → Type 0 = λ h. h.skips ≡ (created_by q sync p).sync_completion in
    (
      ap (λ (r : Process). packets_of r.queue) (sym same) ∙ empty ∙ ap packets_of (sym is_none),
      subst (λ (r : Process). ModesAt r.queue hs us r.sync_completion) same
          (subst (Every own_mode) (sym no_handles) tt),
    )

associated :
    (modes_ok port_ok : Bool) (h fn : ℕ) (skips : Bool) (p p' : Process) (hs : List Handle)
    (us : List (ℕ × ℕ))
    → associate_modes modes_ok port_ok h fn p ≡ returns (skips, p')
    → ModesAt p.queue hs us p.sync_completion
    → (packets_of p'.queue ≡ packets_of p.queue)
      × ModesAt p'.queue (record { number = h; key = fn; skips = skips } ∷ hs) us p'.sync_completion
associated modes_ok port_ok h fn skips p p' hs us e m =
    let (q, is_some, same, mode) = associated_at modes_ok port_ok h fn skips p p' e in
    let modes : Every (λ h. h.skips ≡ p.sync_completion) hs =
      subst (λ o. ModesAt o hs us p.sync_completion) is_some m in
    (
      ap (λ (r : Process). packets_of r.queue) (sym same) ∙ ap packets_of (sym is_some),
      subst
          (λ (r : Process).
            ModesAt r.queue (record { number = h; key = fn; skips = skips } ∷ hs) us
              r.sync_completion)
          same (mode, modes),
    )

posted :
    (o : Option CompletionQueue) (ok : Bool) (x : Packet) (p p' : Process) (hs : List Handle)
    (us : List (ℕ × ℕ))
    → with_queue o
        (λ q. if ok then put p (record q { packets = q.packets ++ (x ∷ []) }) else exits 1)
      ≡ returns p'
    → ModesAt o hs us p.sync_completion
    → ((f : Packet → ℕ) → total f (packets_of p'.queue) ≡ total f (packets_of o) + f x)
      × ModesAt p'.queue hs us p'.sync_completion
posted none ok x p p' hs us e m = absurd (cc)
posted (some q) ok x p p' hs us e m =
    let same = posted_at ok x q p p' e in
    (
      λ f.
          ap (λ (r : Process). total f (packets_of r.queue)) (sym same)
          ∙ queued-total f x (some q) q refl,
      subst (λ (r : Process). ModesAt r.queue hs us r.sync_completion) same m,
    )

called_at :
    (no_key : Bool) (k o x n key c error bytes : ℕ)
    → Path
        (Ends Turn)
        (if no_key then exits 1 else returns (calls k o x n))
        (returns (calls key c error bytes))
    → o ≡ c
called_at true k o x n key c error bytes e = absurd (cc)
called_at false k o x n key c error bytes e = cc

-- the operation of the packet that a call of a function was for
taken_at :
    (o : Option ℕ) (ok : Bool) (key c error bytes : ℕ) (p : Packet)
    → handle ok p o ≡ returns (calls key c error bytes)
    → overlapped_of o ≡ c
taken_at none true key c error bytes p e = absurd (cc)
taken_at none false key c error bytes p e = absurd (cc)
taken_at (some o) ok key c error bytes p e =
    called_at (p.key == 0) p.key o (if ok then 0 else p.error) p.bytes key c error bytes e

serves_at :
    (o : Option CompletionQueue) (q : CompletionQueue) (hs : List Handle) (us : List (ℕ × ℕ))
    (sync : Bool) (packets : List Packet)
    → o ≡ some q
    → ModesAt o hs us sync
    → ModesAt (some (record q { packets = packets })) hs us sync
serves_at none q hs us sync packets e m = absurd (cc)
serves_at (some r) q hs us sync packets e m = m

Step-KnownOnce : {w w' : World} → Step w w' → KnownOnce w → KnownOnce w'
unfolding new_pool post stop_pool destroy_pool thread_turn
Step-KnownOnce {w = w} (creates {p' = p'} port_ok ok n sync e) k =
    let (same, m) =
      created w.process.queue port_ok ok n sync w.process p' w.handles w.under_way
        w.process.sync_completion e k.modes in
    process-KnownOnce w p' w.handles same m k
Step-KnownOnce {w = w} (associates {p' = p'} modes_ok port_ok skips h fn e) k =
    let (same, m) =
      associated modes_ok port_ok h (suc fn) skips w.process p' w.handles w.under_way e k.modes in
    process-KnownOnce w p' (record { number = h; key = suc fn; skips = skips } ∷ w.handles) same m k
Step-KnownOnce {w = w} (receives before after h result e r) k =
    let (q, all) =
      pool_of w.process.queue w.handles before after h w.under_way w.process.sync_completion e
        k.modes in
    received-KnownOnce w k q all h result w.process.sync_completion
      (Every-split (λ h. h.skips ≡ w.process.sync_completion) before h after
        (subst (Every (λ h. h.skips ≡ w.process.sync_completion)) e all)).0
      r
Step-KnownOnce {w = w} (sends before after h result e r) k =
    let (q, all) =
      pool_of w.process.queue w.handles before after h w.under_way w.process.sync_completion e
        k.modes in
    sent-KnownOnce w k q all h result w.process.sync_completion
      (Every-split (λ h. h.skips ≡ w.process.sync_completion) before h after
        (subst (Every (λ h. h.skips ≡ w.process.sync_completion)) e all)).0
      r
Step-KnownOnce {w = w} (posts {p' = p'} ok bytes fn e) k =
    let x : Packet = record { key = suc fn; overlapped = some w.made; error = 0; bytes = bytes } in
    let (more, m) = posted w.process.queue ok x w.process p' w.handles w.under_way e k.modes in
    record {
      modes = m;
      once = λ c.
          omega
            (arith, k.once c, new_call c w.made, more (λ p. one c (overlapped_of p.overlapped)));
    }
Step-KnownOnce {w = w} (completes before after c key error bytes e) k =
    let x : Packet = record { key = key; overlapped = some c; error = error; bytes = bytes } in
    let ((q, some_q), all) =
      pool_under w.process.queue w.handles w.under_way before after (c, key)
        w.process.sync_completion e k.modes in
    record {
      modes =
          queued-modes x w.process.queue w.handles (before ++ after) w.under_way
            w.process.sync_completion all q some_q;
      once = λ d. omega (
        arith,
        k.once d,
        queued-total (λ p. one d (overlapped_of p.overlapped)) x w.process.queue q some_q,
        ap (total (λ (o : ℕ × ℕ). one d o.0)) e,
        total_split (λ (o : ℕ × ℕ). one d o.0) before (c, key) after,
      );
    }
Step-KnownOnce {w = w} (serves {q = q} before after p key c error bytes e split r) k = record {
  modes =
      serves_at w.process.queue q w.handles w.under_way w.process.sync_completion (before ++ after)
        e k.modes;
  once = λ d. omega (
    arith,
    k.once d,
    ap (λ o. total (λ p. one d (overlapped_of p.overlapped)) (packets_of o)) e,
    ap (total (λ p. one d (overlapped_of p.overlapped))) split,
    total_split (λ p. one d (overlapped_of p.overlapped)) before p after,
    ap (one d) (taken_at p.overlapped (p.error == 0) key c error bytes p r),
  );
}
Step-KnownOnce {w = w} (stops {p' = p'} e) k =
    let same = stopped_at w.process.queue w.process p' e in
    subst (λ r. KnownOnce (record w { process = r })) same k
Step-KnownOnce {w = w} (destroys {p' = p'} e) k =
    let (none_left, same) = destroyed_at w.process.queue w.process p' e in
    subst (λ r. KnownOnce (record w { process = r })) same
      (process-KnownOnce w (record w.process { queue = none }) w.handles
        (ap packets_of (sym none_left))
        (subst (λ o. ModesAt o w.handles w.under_way w.process.sync_completion) none_left k.modes)
        k)

-- In every run of the thread pool with its handles, posts and calls of `Receive` and `Send`,
-- whatever Winsock makes of these and in whatever order packets arrive: each handle skips the
-- packets of calls that succeed at once if and only if `syncCompletion` is set; so each call or
-- post that was made is known to have ended in just one way: its status said so at once, its status
-- was an error, the system is still at work on it, a packet waits for it, or its function was
-- called.
pub calls-KnownOnce : {w : World} → Reach w → KnownOnce w
calls-KnownOnce (begins sync) = record { modes = (refl, refl); once = λ c. ground arith }
calls-KnownOnce (goes r s) = Step-KnownOnce s (calls-KnownOnce r)
