-- ===== src/Pal/Delivery/Parts.antt =====
-- Each operation of the thread pool on the packets of its port.
use await.Base.{
  ℕ, zero, suc, ◌≡◌, refl, ap, sym, subst, Bool, List, [], ◌∷◌, ◌++◌, Option, none, some, total,
  total_split, total-append, Every, Every-split, Every-append, ◌==◌, arith, if◌then◌else◌,
}
use await.Pal.Queue.{
  returns, exits, Packet, CompletionQueue, Process, Turn, calls, new_queue, thread_turn,
}
use await.Pal.Threads.{new_queue_returns}
use await.Pal.Effects.{created_at, handle_at, posted_at, stopped_at, destroyed_at}
use await.Pal.Pool.{associate_handle, stop_queue, create, put, with_queue, delete_queue}
use await.Pal.Delivery.{notice, Callable, Ported, DeliversAt}

pub callable_lem :
    (k overlapped error bytes : ℕ)
    → Callable (record { key = suc k; overlapped = some overlapped; error = error; bytes = bytes })
unfolding thread_turn
callable_lem k overlapped zero bytes = ground arith
callable_lem k overlapped (suc error) bytes = ground arith

-- one more packet in the port
pub packet-Ported :
    (q : CompletionQueue) (submitted called : List Turn) (p : Packet)
    → Callable p
    → Ported q submitted called
    → Ported (record q { packets = q.packets ++ (p ∷ []) }) (notice p ∷ submitted) called
packet-Ported q submitted called p c h = record {
  keys = h.keys;
  callable = Every-append Callable q.packets (p ∷ []) h.callable (c, tt);
  counted = λ f. omega (arith, h.counted f, total-append (λ x. f (notice x)) q.packets (p ∷ []));
  running = h.running;
  few = h.few;
}

pub taken-Ported :
    (q : CompletionQueue) (submitted called : List Turn) (before after : List Packet) (p : Packet)
    (t : Turn)
    → q.packets ≡ before ++ (p ∷ after)
    → thread_turn (p.error == 0) p ≡ returns t
    → Ported q submitted called
    → Ported (record q { packets = before ++ after }) submitted (t ∷ called)
taken-Ported q submitted called before after p t e r h =
    let parts = Every-split Callable before p after (subst (Every Callable) e h.callable) in
    let same : notice p ≡ t = cc in
    record {
      keys = h.keys;
      callable = parts.1;
      counted = λ f. omega (
        arith,
        h.counted f,
        ap f same,
        ap (total (λ x. f (notice x))) e,
        total_split (λ x. f (notice x)) before p after,
      );
      running = h.running;
      few = h.few;
    }

-- A port that a queue has just made has no packets and no handles.
new_queue-Ported :
    (port_ok : Bool) (ok : ℕ → Bool) (n : ℕ) (q : CompletionQueue)
    → new_queue port_ok ok n ≡ returns q
    → Ported q [] []
new_queue-Ported port_ok ok n q e =
    subst (λ r. Ported r [] []) (sym (new_queue_returns port_ok ok n q e).0)
      (record {
        keys = tt;
        callable = tt;
        counted = λ f. refl;
        running = refl;
        few = (new_queue_returns port_ok ok n q e).1;
      })

pub new_pool-Delivers :
    (o : Option CompletionQueue) (port_ok : Bool) (ok : ℕ → Bool) (n : ℕ) (sync : Bool)
    (p p' : Process) (submitted called : List Turn)
    → DeliversAt o submitted called
    → create o port_ok ok n sync p ≡ returns p'
    → DeliversAt p'.queue submitted called
new_pool-Delivers o port_ok ok n sync p p' submitted called h e =
    let (is_none, q, made, same) = created_at o port_ok ok n sync p p' e in
    let none_submitted = subst (λ o. DeliversAt o submitted called) is_none h in
    subst (λ (r : Process). DeliversAt r.queue submitted called) same
      (subst (λ l. Ported q l called) (sym none_submitted.0)
        (subst (Ported q []) (sym none_submitted.1) (new_queue-Ported port_ok ok n q made)))

pub associate-Delivers :
    (modes_ok port_ok : Bool) (h k : ℕ) (p p' : Process) (submitted called : List Turn)
    → DeliversAt p.queue submitted called
    → associate_handle modes_ok port_ok h (suc k) p ≡ returns p'
    → DeliversAt p'.queue submitted called
associate-Delivers modes_ok port_ok h k p p' submitted called at_start e =
    let (q, is_some, same) = handle_at modes_ok port_ok h (suc k) p p' e in
    let d : Ported q submitted called =
      subst (λ o. DeliversAt o submitted called) is_some at_start in
    subst (λ (r : Process). DeliversAt r.queue submitted called) same
      (record {
        keys = ((k, refl), d.keys);
        callable = d.callable;
        counted = d.counted;
        running = d.running;
        few = d.few;
      })

pub post-Delivers :
    (o : Option CompletionQueue) (ok : Bool) (overlapped bytes k : ℕ) (p p' : Process)
    (submitted called : List Turn)
    → DeliversAt o submitted called
    → with_queue o (λ q.
      if ok
      then put p (record q {
        packets =
            q.packets
            ++ (record { key = suc k; overlapped = some overlapped; error = 0; bytes = bytes }
                ∷ []);
      })
      else exits 1)
      ≡ returns p'
    → DeliversAt p'.queue (calls (suc k) overlapped 0 bytes ∷ submitted) called
post-Delivers none ok overlapped bytes k p p' submitted called d e = absurd (cc)
post-Delivers (some q) ok overlapped bytes k p p' submitted called d e =
    let packet : Packet = record {
      key = suc k;
      overlapped = some overlapped;
      error = 0;
      bytes = bytes;
    } in
    subst (λ (r : Process). DeliversAt r.queue (notice packet ∷ submitted) called)
      (posted_at ok packet q p p' e)
      (packet-Ported q submitted called packet (callable_lem k overlapped 0 bytes) d)

pub stop-Delivers :
    (o : Option CompletionQueue) (p p' : Process) (submitted called : List Turn)
    → o ≡ p.queue
    → DeliversAt o submitted called
    → stop_queue o p ≡ returns p'
    → DeliversAt p'.queue submitted called
stop-Delivers o p p' submitted called eq d e =
    subst (λ (r : Process). DeliversAt r.queue submitted called) (stopped_at o p p' e)
      (subst (λ o. DeliversAt o submitted called) eq d)

pub destroy-Delivers :
    (o : Option CompletionQueue) (p p' : Process) (submitted called : List Turn)
    → DeliversAt o submitted called
    → delete_queue o p ≡ returns p'
    → DeliversAt p'.queue submitted called
destroy-Delivers o p p' submitted called d e =
    let (is_none, same) = destroyed_at o p p' e in
    subst (λ (r : Process). DeliversAt r.queue submitted called) same
      (subst (λ o. DeliversAt o submitted called) is_none d)
