-- ===== src/Pal/Delivery/Runs.antt =====
-- The runs of the thread pool.
use await.Base.{refl, sym, subst, some, Every, Every-split}
use await.Pal.Queue.{Packet}
use await.Pal.Pool.{new_pool, post, stop_pool, destroy_pool}
use await.Pal.Delivery.{
  World, Step, creates, associates, posts, completes, serves, stops, destroys, Reach, begins, goes,
  HasKey, Callable, Ported, DeliversAt, Delivers,
}
use await.Pal.Delivery.Parts.{
  callable_lem, packet-Ported, taken-Ported, new_pool-Delivers, associate-Delivers, post-Delivers,
  stop-Delivers, destroy-Delivers,
}

Step-Delivers : {w w' : World} → Step w w' → Delivers w → Delivers w'
unfolding new_pool post stop_pool destroy_pool
Step-Delivers {w = w} (creates {p' = p'} port_ok ok n sync e) d =
    new_pool-Delivers w.process.queue port_ok ok n sync w.process p' w.submitted w.called d e
Step-Delivers {w = w} (associates {p' = p'} modes_ok port_ok h k e) d =
    associate-Delivers modes_ok port_ok h k w.process p' w.submitted w.called d e
Step-Delivers {w = w} (posts {p' = p'} ok overlapped bytes k e) d =
    post-Delivers w.process.queue ok overlapped bytes k w.process p' w.submitted w.called d e
Step-Delivers {w = w} (completes {q = q} before after h fn overlapped error bytes e a) d =
    let port : Ported q w.submitted w.called = subst (λ o. DeliversAt o w.submitted w.called) e d in
    let (k, key) = (Every-split HasKey before (h, fn) after (subst (Every HasKey) a port.keys)).0 in
    let packet : Packet = record {
      key = fn;
      overlapped = some overlapped;
      error = error;
      bytes = bytes;
    } in
    packet-Ported q w.submitted w.called packet
      (subst (λ x. Callable (record packet { key = x })) (sym key)
        (callable_lem k overlapped error bytes))
      port
Step-Delivers {w = w} (serves {q = q} {t = t} before after p e some_thread split r) d =
    taken-Ported q w.submitted w.called before after p t split r
      (subst (λ o. DeliversAt o w.submitted w.called) e d)
Step-Delivers {w = w} (stops {p' = p'} e) d =
    stop-Delivers w.process.queue w.process p' w.submitted w.called refl d e
Step-Delivers {w = w} (destroys {p' = p'} e) d =
    destroy-Delivers w.process.queue w.process p' w.submitted w.called d e

-- In every run of the thread pool that no `exit` ends, whatever its threads, handles and packets are: the
-- pool has at most 64 threads, all running; each notification that was posted or is due to a completed
-- operation was given to its function just once or waits in one packet; and whichever packet a thread takes
-- next, no check of `ThreadProc` stops it and it calls the function of that packet.
pub pool-Delivers : {w : World} → Reach w → Delivers w
pool-Delivers (begins sync) = (refl, refl)
pool-Delivers (goes r s) = Step-Delivers s (pool-Delivers r)
