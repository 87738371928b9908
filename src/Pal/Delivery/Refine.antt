-- ===== src/Pal/Delivery/Refine.antt =====
-- What the pool promises of its notifications: a bag of them, which does not say in which order they go.
use await.Base.{
  suc, ◌≡◌, ap, sym, subst, ◌∙◌, if◌then◌else◌, List, [], ◌∷◌, ◌++◌, Option, some, map, map-append,
  Every, Every-split, Bag, of_list, put, put_last, put_split,
}
use await.Pal.Queue.{exits, Packet, CompletionQueue, Process, Turn}
use await.Pal.Pool.{put as pool_put, new_pool, post, stop_pool, destroy_pool}
use await.Pal.Effects.{
  packets_of, created_at, new_queue-packets, queue_at, handle_at, posted_at, stopped_at,
  destroyed_at,
}
use await.Pal.Delivery.{
  World, Step, creates, associates, posts, completes, serves, stops, destroys, Reach, notice,
  Callable, Ported, DeliversAt,
}
use await.Pal.Delivery.Runs.{pool-Delivers}

-- the notifications that wait, those that were asked for, and those that were given, the last one first
pub record Pending : Type 0 where
  pub waiting : Bag Turn
  pub submitted : List Turn
  pub called : List Turn

pub data Spec : Pending → Pending → Type 0 where
  idles : {p : Pending} → Spec p p
  submits :
      {p : Pending} (t : Turn)
      → Spec p
          (record { waiting = put t p.waiting; submitted = t ∷ p.submitted; called = p.called })
  delivers :
      {b : Bag Turn} {submitted called : List Turn} (t : Turn)
      → Spec
          (record { waiting = put t b; submitted = submitted; called = called })
          (record { waiting = b; submitted = submitted; called = t ∷ called })

abbrev pub notices : Option CompletionQueue → List Turn
notices o = map notice (packets_of o)

abbrev pub view : World → Pending
view w = record {
  waiting = of_list (notices w.process.queue);
  submitted = w.submitted;
  called = w.called;
}

-- a step that keeps the packets
same_notices :
    (w : World) (p' : Process)
    → notices w.process.queue ≡ notices p'.queue
    → Spec (view w) (view (record w { process = p' }))
same_notices w p' e =
    subst
      (λ l.
        Spec (view w) (record { waiting = of_list l; submitted = w.submitted; called = w.called }))
      e idles

submitted_packet :
    (w : World) (q : CompletionQueue) (x : Packet)
    → w.process.queue ≡ some q
    → Spec (view w) (record {
      waiting = of_list (map notice (q.packets ++ (x ∷ [])));
      submitted = notice x ∷ w.submitted;
      called = w.called;
    })
submitted_packet w q x e =
    subst
      (λ b.
        Spec (view w)
          (record { waiting = b; submitted = notice x ∷ w.submitted; called = w.called }))
      (ap (λ o. put (notice x) (of_list (notices o))) e
        ∙ sym (put_last (notice x) (map notice q.packets))
        ∙ ap of_list (sym (map-append notice q.packets (x ∷ []))))
      (submits (notice x))

pub taken_packet :
    (w : World) (q : CompletionQueue) (before after : List Packet) (x : Packet)
    → w.process.queue ≡ some q
    → q.packets ≡ before ++ (x ∷ after)
    → (view w).waiting ≡ put (notice x) (of_list (map notice (before ++ after)))
taken_packet w q before after x e split =
    ap (λ o. of_list (notices o)) e
    ∙ ap (λ l. of_list (map notice l)) split
    ∙ ap of_list (map-append notice before (x ∷ after))
    ∙ put_split (notice x) (map notice before) (map notice after)
    ∙ ap (λ l. put (notice x) (of_list l)) (sym (map-append notice before after))

pub Step-Spec : {w w' : World} → Reach w → Step w w' → Spec (view w) (view w')
unfolding new_pool post stop_pool destroy_pool
Step-Spec {w = w} r (creates {p' = p'} port_ok ok n sync e) =
    let (is_none, q, made, same) = created_at w.process.queue port_ok ok n sync w.process p' e in
    let empty = new_queue-packets port_ok ok n q made in
    same_notices w p' (
      ap notices is_none ∙ ap (map notice) (sym empty) ∙ ap (λ (p : Process). notices p.queue) same)
Step-Spec {w = w} r (associates {p' = p'} modes_ok port_ok h k e) =
    let (q, is_some, same) = handle_at modes_ok port_ok h (suc k) w.process p' e in
    same_notices w p' (ap notices is_some ∙ ap (λ (p : Process). notices p.queue) same)
Step-Spec {w = w} r (posts {p' = p'} ok overlapped bytes k e) =
    let x : Packet = record {
      key = suc k;
      overlapped = some overlapped;
      error = 0;
      bytes = bytes;
    } in
    let (q, is_some, e') =
      queue_at w.process.queue
        (λ q.
          if ok then pool_put w.process (record q { packets = q.packets ++ (x ∷ []) }) else exits 1)
        p' e in
    subst
      (λ (p : Process). Spec (view w) (record {
        waiting = of_list (notices p.queue);
        submitted = notice x ∷ w.submitted;
        called = w.called;
      }))
      (posted_at ok x q w.process p' e') (submitted_packet w q x is_some)
Step-Spec {w = w} r (completes {q = q} before after h fn overlapped error bytes e a) =
    submitted_packet w q
      (record { key = fn; overlapped = some overlapped; error = error; bytes = bytes }) e
Step-Spec {w = w} r (serves {q = q} {t = t} before after p e some_thread split turn) =
    let port : Ported q w.submitted w.called =
      subst (λ o. DeliversAt o w.submitted w.called) e (pool-Delivers r) in
    let given : notice p ≡ t =
      (let callable =
          (Every-split Callable before p after (subst (Every Callable) split port.callable)).0 in
        cc) in
    let b : Bag Turn = of_list (map notice (before ++ after)) in
    subst
      (λ b'.
        Spec (record { waiting = b'; submitted = w.submitted; called = w.called })
          (record { waiting = b; submitted = w.submitted; called = t ∷ w.called }))
      (ap (λ t. put t b) (sym given) ∙ sym (taken_packet w q before after p e split)) (delivers t)
Step-Spec {w = w} r (stops {p' = p'} e) =
    same_notices w p'
      (ap (λ (p : Process). notices p.queue) (stopped_at w.process.queue w.process p' e))
Step-Spec {w = w} r (destroys {p' = p'} e) =
    let (is_none, same) = destroyed_at w.process.queue w.process p' e in
    same_notices w p' (ap notices is_none ∙ ap (λ (p : Process). notices p.queue) same)
