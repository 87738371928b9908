-- ===== src/Pal/Notify/Once.antt =====
-- How often each call is known to have ended.
use await.Base.{
  ℕ, ◌+◌, ◌≡◌, refl, sym, subst, Bool, true, false, to_ℕ, ltb, List, [], ◌∷◌, ◌++◌, Option, none,
  some, total, total-append, Every, ◌==◌, arith, if◌then◌else◌,
}
use await.Pal.{WsaResult, success, socket_error, io_pending, receive, send}
use await.Pal.Queue.{Packet, CompletionQueue}
use await.Pal.Delivery.{overlapped_of}
use await.Pal.Effects.{packets_of}
use await.Pal.Notify.{Handle, World, queued, put_packet, issue, tell, IsResult}

abbrev pub one : ℕ → ℕ → ℕ
one c k = to_ℕ (k == c)

-- in how many ways the call has ended, will end, or is about to be known to have ended
abbrev pub ways : ℕ → World → ℕ
ways c w =
    total (one c) w.told
    + total (one c) w.failed
    + total (λ o. one c o.0) w.under_way
    + total (λ p. one c (overlapped_of p.overlapped)) (packets_of w.process.queue)
    + total (one c) w.called

-- Every handle skips its packets if and only if the calls say so when they end at once.
abbrev pub ModesAt : Option CompletionQueue → List Handle → List (ℕ × ℕ) → Bool → Type 0
ModesAt none handles under_way sync = (handles ≡ []) × (under_way ≡ [])
ModesAt (some q) handles under_way sync = Every (λ h. h.skips ≡ sync) handles

pub record KnownOnce (w : World) : Type 0 where
  pub modes : ModesAt w.process.queue w.handles w.under_way w.process.sync_completion
  pub once : (c : ℕ) → ways c w ≡ to_ℕ (ltb c w.made)

pub new_call : (c n : ℕ) → one c n + to_ℕ (ltb c n) ≡ to_ℕ (ltb c (n + 1))
new_call c n = ground arith

-- one more packet
pub queued-total :
    (f : Packet → ℕ) (p : Packet) (o : Option CompletionQueue) (q : CompletionQueue)
    → o ≡ some q
    → total f (packets_of (queued p o)) ≡ total f (packets_of o) + f p
queued-total f p none q e = absurd (cc)
queued-total f p (some r) q e = omega (arith, total-append f r.packets (p ∷ []))

pub queued-modes :
    (p : Packet) (o : Option CompletionQueue) (hs : List Handle) (us us' : List (ℕ × ℕ))
    (sync : Bool)
    → Every (λ h. h.skips ≡ sync) hs
    → (q : CompletionQueue) → o ≡ some q
    → ModesAt (queued p o) hs us sync
queued-modes p none hs us us' sync k q e = absurd (cc)
queued-modes p (some r) hs us us' sync k q e = k

-- a pool that has handles is there
pub pool_of :
    (o : Option CompletionQueue) (hs before after : List Handle) (h : Handle) (us : List (ℕ × ℕ))
    (sync : Bool)
    → hs ≡ before ++ (h ∷ after)
    → ModesAt o hs us sync
    → ((q : CompletionQueue) × (o ≡ some q)) × Every (λ h. h.skips ≡ sync) hs
pool_of (some q) hs before after h us sync e k = ((q, refl), k)
pool_of none hs [] after h us sync e k = absurd (cc)
pool_of none hs (b ∷ before) after h us sync e k = absurd (cc)

-- a pool that has calls under way is there
pub pool_under :
    (o : Option CompletionQueue) (hs : List Handle) (us before after : List (ℕ × ℕ)) (u : ℕ × ℕ)
    (sync : Bool)
    → us ≡ before ++ (u ∷ after)
    → ModesAt o hs us sync
    → ((q : CompletionQueue) × (o ≡ some q)) × Every (λ h. h.skips ≡ sync) hs
pool_under (some q) hs us before after u sync e k = ((q, refl), k)
pool_under none hs us [] after u sync e k = absurd (cc)
pool_under none hs us (b ∷ before) after u sync e k = absurd (cc)

pub modes_some :
    (o : Option CompletionQueue) (hs : List Handle) (us : List (ℕ × ℕ)) (sync : Bool)
    → ((q : CompletionQueue) × (o ≡ some q))
    → Every (λ h. h.skips ≡ sync) hs
    → ModesAt o hs us sync
modes_some none hs us sync (q, e) k = absurd (cc)
modes_some (some r) hs us sync (q, e) k = k

-- A call that has one more number, and ends in one way, keeps the counts.
module _ (w : World) (k : KnownOnce w)
    (some_queue : (q : CompletionQueue) × (w.process.queue ≡ some q))
    (all : Every (λ h. h.skips ≡ w.process.sync_completion) w.handles) where
  told-KnownOnce : KnownOnce (record w { made = w.made + 1; told = w.made ∷ w.told })
  told-KnownOnce = record {
    modes = k.modes;
    once = λ c. omega (arith, k.once c, new_call c w.made);
  }

  failed-KnownOnce : KnownOnce (record w { made = w.made + 1; failed = w.made ∷ w.failed })
  failed-KnownOnce = record {
    modes = k.modes;
    once = λ c. omega (arith, k.once c, new_call c w.made);
  }

  pending-KnownOnce :
      (key : ℕ)
      → KnownOnce (record w { made = w.made + 1; under_way = (w.made, key) ∷ w.under_way })
  pending-KnownOnce key = record {
    modes =
        modes_some w.process.queue w.handles ((w.made, key) ∷ w.under_way) w.process.sync_completion
          some_queue all;
    once = λ c. omega (arith, k.once c, new_call c w.made);
  }

  packet-KnownOnce :
      (key error bytes : ℕ)
      → KnownOnce (
          put_packet
            (record { key = key; overlapped = some w.made; error = error; bytes = bytes })
            (record w { made = w.made + 1 }))
  packet-KnownOnce key error bytes =
      let p : Packet = record {
        key = key;
        overlapped = some w.made;
        error = error;
        bytes = bytes;
      } in
      let (q, e) = some_queue in
      record {
        modes =
            queued-modes p w.process.queue w.handles w.under_way w.under_way
              w.process.sync_completion all q e;
        once = λ c. omega (
          arith,
          k.once c,
          new_call c w.made,
          queued-total (λ p. one c (overlapped_of p.overlapped)) p w.process.queue q e,
        );
      }

  -- the status of a call that did not succeed at once
  error-KnownOnce :
      (h : Handle) (code : ℕ) (pending : Bool)
      → (code == io_pending) ≡ pending
      → (code == 0) ≡ false
      → (let w' : World = record w { made = w.made + 1 } in
          KnownOnce (
            tell
              (if code == io_pending then 0 else code)
              w.made
              (issue h (socket_error code) w.made w')))
  error-KnownOnce h code true e z =
      subst
        (λ b. KnownOnce (
          tell (if b then 0 else code) w.made (
            if b
            then record w { made = w.made + 1; under_way = (w.made, h.key) ∷ w.under_way }
            else record w { made = w.made + 1 })))
        (sym e) (pending-KnownOnce h.key)
  error-KnownOnce h code false e z =
      let w' : World = record w { made = w.made + 1 } in
      subst
        (λ b. KnownOnce (
          tell (if b then 0 else code) w.made
            (if b then record w' { under_way = (w.made, h.key) ∷ w.under_way } else w')))
        (sym e)
        (subst
          (λ b. KnownOnce (
            if b
            then record w' { told = w.made ∷ w.told }
            else if code == 0
            then w'
            else record w' { failed = w.made ∷ w.failed }))
          (sym e)
          (subst (λ b. KnownOnce (if b then w' else record w' { failed = w.made ∷ w.failed }))
            (sym z) failed-KnownOnce))

  -- a call that succeeded at once
  success-KnownOnce :
      (h : Handle) (bytes : ℕ) (sync : Bool)
      → h.skips ≡ sync
      → KnownOnce (
          tell
            (if sync then io_pending else 0)
            w.made
            (issue h (success bytes) w.made (record w { made = w.made + 1 })))
  success-KnownOnce h bytes sync e =
      let w' : World = record w { made = w.made + 1 } in
      let p : Packet = record { key = h.key; overlapped = some w.made; error = 0; bytes = bytes } in
      subst
        (λ b.
          KnownOnce
            (tell (if sync then io_pending else 0) w.made (if b then w' else put_packet p w')))
        (sym e)
        (elim sync
          as (λ b.
            KnownOnce
              (tell (if b then io_pending else 0) w.made (if b then w' else put_packet p w'))) [
                | true ↦ told-KnownOnce
                | false ↦ packet-KnownOnce h.key 0 bytes
              ])

  pub received-KnownOnce :
      (h : Handle) (result : WsaResult) (sync : Bool)
      → h.skips ≡ sync
      → IsResult result
      → KnownOnce (
          tell
            (receive sync result)
            w.made
            (issue h result w.made (record w { made = w.made + 1 })))
  unfolding receive
  received-KnownOnce h (success bytes) sync e r = success-KnownOnce h bytes sync e
  received-KnownOnce h (socket_error code) sync e r =
      error-KnownOnce h code (code == io_pending) refl (ground arith)

  pub sent-KnownOnce :
      (h : Handle) (result : WsaResult) (sync : Bool)
      → h.skips ≡ sync
      → IsResult result
      → KnownOnce
          (tell (send sync result) w.made (issue h result w.made (record w { made = w.made + 1 })))
  unfolding send
  sent-KnownOnce h (success bytes) sync e r = success-KnownOnce h bytes sync e
  sent-KnownOnce h (socket_error code) sync e r =
      error-KnownOnce h code (code == io_pending) refl (ground arith)
