-- ===== src/Pal/Effects.antt =====
-- What is left of the pool of 2015_CppCon/SuperLean/PAL.cpp by the operations that return.
use await.Base.{
  ℕ, ◌≡◌, refl, ◌∙◌, ap, Bool, true, false, List, [], ◌∷◌, ◌++◌, Option, none, some, if◌then◌else◌,
}
use await.Pal.Queue.{
  Ends, returns, exits, overruns, and_then, Packet, CompletionQueue, Process, new_queue, associate,
  stop,
}
use await.Pal.Pool.{
  associate_modes, associate_handle, create, put, with_queue, stop_queue, delete_queue,
}
use await.Pal.Threads.{new_queue_returns}

pub and_then-returns {ℓ κ} :
    {A : Type ℓ} {B : Type κ} (m : Ends A) (f : A → Ends B) (b : B)
    → and_then m f ≡ returns b
    → (a : A) × (m ≡ returns a) × (f a ≡ returns b)
and_then-returns (returns a) f b e = (a, refl, e)
and_then-returns (exits status) f b e = absurd (cc)
and_then-returns overruns f b e = absurd (cc)

abbrev pub packets_of : Option CompletionQueue → List Packet
packets_of none = []
packets_of (some q) = q.packets

abbrev pub created_by : CompletionQueue → Bool → Process → Process
created_by q sync p = record {
  queue = some q;
  sync_completion = if sync then p.sync_completion else false;
}

pub created_at :
    (o : Option CompletionQueue) (port_ok : Bool) (ok : ℕ → Bool) (n : ℕ) (sync : Bool)
    (p p' : Process)
    → create o port_ok ok n sync p ≡ returns p'
    → (o ≡ none)
      × (q : CompletionQueue) × (new_queue port_ok ok n ≡ returns q)
      × (created_by q sync p ≡ p')
created_at (some q) port_ok ok n sync p p' e = absurd (cc)
created_at none port_ok ok n sync p p' e =
    let (q, made, e') =
      and_then-returns (new_queue port_ok ok n) (λ q. returns (created_by q sync p)) p' e in
    (refl, q, made, cc)

pub queue_at :
    (o : Option CompletionQueue) (f : CompletionQueue → Ends Process) (p' : Process)
    → with_queue o f ≡ returns p'
    → (q : CompletionQueue) × (o ≡ some q) × (f q ≡ returns p')
queue_at none f p' e = absurd (cc)
queue_at (some q) f p' e = (q, refl, e)

-- An association that returns leaves its handle in the port, which was there, and with the mode
-- of the process.
modes_at :
    (o : Option CompletionQueue) (sync modes_ok port_ok : Bool) (h fn : ℕ) (skips : Bool)
    (p' : Process)
    → Path
        (Ends (Bool × Process))
        (associate_modes modes_ok port_ok h fn (record { queue = o; sync_completion = sync }))
        (returns (skips, p'))
    → (q : CompletionQueue) × (o ≡ some q)
      × (record {
        queue = some (record q { associated = (h, fn) ∷ q.associated });
        sync_completion = sync;
      }
          ≡ p')
      × (skips ≡ sync)
unfolding associate
modes_at none sync modes_ok port_ok h fn skips p' e = absurd (cc)
modes_at (some q) true false port_ok h fn skips p' e = absurd (cc)
modes_at (some q) true true false h fn skips p' e = absurd (cc)
modes_at (some q) false modes_ok false h fn skips p' e = absurd (cc)
modes_at (some q) true true true h fn skips p' e = (q, refl, cc, cc)
modes_at (some q) false modes_ok true h fn skips p' e = (q, refl, cc, cc)

pub associated_at :
    (modes_ok port_ok : Bool) (h fn : ℕ) (skips : Bool) (p p' : Process)
    → associate_modes modes_ok port_ok h fn p ≡ returns (skips, p')
    → (q : CompletionQueue) × (p.queue ≡ some q)
      × (record p { queue = some (record q { associated = (h, fn) ∷ q.associated }) } ≡ p')
      × (skips ≡ p.sync_completion)
associated_at modes_ok port_ok h fn skips p p' e =
    modes_at p.queue p.sync_completion modes_ok port_ok h fn skips p' e

pub handle_at :
    (modes_ok port_ok : Bool) (h fn : ℕ) (p p' : Process)
    → associate_handle modes_ok port_ok h fn p ≡ returns p'
    → (q : CompletionQueue) × (p.queue ≡ some q)
      × (record p { queue = some (record q { associated = (h, fn) ∷ q.associated }) } ≡ p')
unfolding associate_handle
handle_at modes_ok port_ok h fn p p' e =
    let (r, made, same) =
      and_then-returns (associate_modes modes_ok port_ok h fn p) (λ r. returns r.1) p' e in
    let (q, is_some, left, mode) = associated_at modes_ok port_ok h fn r.0 p r.1 made in
    (q, is_some, left ∙ (cc))

pub posted_at :
    (ok : Bool) (x : Packet) (q : CompletionQueue) (p p' : Process)
    → (if ok then put p (record q { packets = q.packets ++ (x ∷ []) }) else exits 1) ≡ returns p'
    → record p { queue = some (record q { packets = q.packets ++ (x ∷ []) }) } ≡ p'
posted_at false x q p p' e = absurd (cc)
posted_at true x q p p' e = cc

pub stopped_at :
    (o : Option CompletionQueue) (p p' : Process) → stop_queue o p ≡ returns p' → p ≡ p'
unfolding stop
stopped_at none p p' e = cc
stopped_at (some q) p p' e = absurd (cc)

pub destroyed_at :
    (o : Option CompletionQueue) (p p' : Process)
    → delete_queue o p ≡ returns p'
    → (o ≡ none) × (record p { queue = none } ≡ p')
unfolding stop
destroyed_at none p p' e = (refl, cc)
destroyed_at (some q) p p' e = absurd (cc)

pub new_queue-packets :
    (port_ok : Bool) (ok : ℕ → Bool) (n : ℕ) (q : CompletionQueue)
    → new_queue port_ok ok n ≡ returns q
    → q.packets ≡ []
new_queue-packets port_ok ok n q made =
    ap (λ (r : CompletionQueue). r.packets) (new_queue_returns port_ok ok n q made).0
