-- ===== src/Pal/Delivery/Serve.antt =====
-- A thread can take whichever packet waits.
use await.Base.{
  ℕ, ◌≡◌, refl, ap, sym, subst, ◌∙◌, Bool, true, false, to_ℕ, ◌&&◌, ◌<◌, ◌==◌, arith, List, ◌∷◌,
  ◌++◌, some, map, Every, Every-split, Bag, of_list, put, weight, total-map, find_split, weight_lem,
  weight-put, put_injective,
}
use await.Pal.Queue.{returns, Packet, CompletionQueue, Turn, calls, leaves}
use await.Pal.Delivery.{World, Step, serves, Reach, notice, Callable, DeliversAt}
use await.Pal.Delivery.Runs.{pool-Delivers}
use await.Pal.Delivery.Refine.{Spec, notices, view, Step-Spec, taken_packet}

abbrev same_turn : Turn → Turn → Bool
same_turn (calls k o e b) (calls k' o' e' b') = k == k' && (o == o' && (e == e' && b == b'))
same_turn (calls k o e b) leaves = false
same_turn leaves (calls k o e b) = false
same_turn leaves leaves = true

same_turn_sound : (s t : Turn) → same_turn s t ≡ true → s ≡ t
same_turn_sound (calls k o e b) (calls k' o' e' b') h =
    let keys : k ≡ k' = ground arith in
    let operations : o ≡ o' = ground arith in
    let errors : e ≡ e' = ground arith in let sizes : b ≡ b' = ground arith in cc
same_turn_sound (calls k o e b) leaves h = absurd (cc)
same_turn_sound leaves (calls k o e b) h = absurd (cc)
same_turn_sound leaves leaves h = refl

same_turn_itself : (t : Turn) → same_turn t t ≡ true
same_turn_itself (calls k o e b) = ground arith
same_turn_itself leaves = refl

-- A packet stands in the port for each notification that waits.
waiting_packet :
    (packets : List Packet) (t : Turn) (b : Bag Turn)
    → of_list (map notice packets) ≡ put t b
    → (before : List Packet) × (p : Packet) × (after : List Packet) × (packets
        ≡ before ++ (p ∷ after))
      × (notice p ≡ t)
waiting_packet packets t b e =
    let f : Turn → ℕ = λ s. to_ℕ (same_turn s t) in
    let (before, p, after, split, same) =
      find_split (λ p. same_turn (notice p) t) packets
        (omega (
          arith,
          total-map f notice packets,
          ap (weight f) e,
          weight-put f t b,
          weight_lem f (map notice packets),
          ap to_ℕ (same_turn_itself t),
        )) in
    (before, p, after, split, same_turn_sound (notice p) t same)

can_serve :
    {w : World} (t : Turn) (b : Bag Turn)
    → Reach w
    → (q : CompletionQueue) → w.process.queue ≡ some q
    → 0 < q.thread_count
    → (view w).waiting ≡ put t b
    → (0 < q.threads)
      × (w' : World) × Step w w'
      × (view w' ≡ record { waiting = b; submitted = w.submitted; called = t ∷ w.called })
can_serve {w = w} t b r q is_some asked e =
    let (before, p, after, split, same) =
      waiting_packet q.packets t b (ap (λ o. of_list (notices o)) (sym is_some) ∙ e) in
    let port = subst (λ o. DeliversAt o w.submitted w.called) is_some (pool-Delivers r) in
    let callable : Callable p =
      (Every-split Callable before p after (subst (Every Callable) split port.callable)).0 in
    let rest : Bag Turn = of_list (map notice (before ++ after)) in
    let left : rest ≡ b =
      put_injective t rest b (
        ap (λ s. put s rest) (sym same)
        ∙ sym (taken_packet w q before after p is_some split)
        ∙ e) in
    let some_thread : 0 < q.threads = omega (arith, asked, port.running) in
    (
      some_thread,
      _,
      serves before after p is_some some_thread split (callable ∙ ap returns same),
      ap (λ b'. record { waiting = b'; submitted = w.submitted; called = t ∷ w.called }) left,
    )

-- In every run of the thread pool that no `exit` ends, the packets of its port implement a bag of
-- notifications, which forgets the order of the packets and which call they came from: each step of
-- the pool does nothing to the bag, puts the notification that it is asked for into it, or gives
-- one of those in it to its function; and when the pool was asked for at least one thread, it has a
-- thread, which can take whichever notification is in the bag when it next waits for a packet.
pub pool-Refines :
    {w : World}
    → Reach w
    → ((w' : World) → Step w w' → Spec (view w) (view w'))
      × ((q : CompletionQueue)
          → w.process.queue ≡ some q
          → 0 < q.thread_count
          → (t : Turn) (b : Bag Turn) → (view w).waiting ≡ put t b
          → (0 < q.threads)
            × (w' : World) × Step w w'
            × (view w' ≡ record { waiting = b; submitted = w.submitted; called = t ∷ w.called }))
pool-Refines r = (λ w'. Step-Spec r, λ q is_some asked t b e. can_serve t b r q is_some asked e)
