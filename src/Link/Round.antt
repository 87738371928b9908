-- ===== src/Link/Round.antt =====
-- The bytes on their way round: from the client to the server and back.
use await.Base.{
  ℕ, zero, suc, ◌+◌, ◌-◌, ◌%◌, ◌<◌, ◌≡◌, refl, sym, ap, subst, ◌∙◌, Bool, List, [], ◌∷◌, ◌++◌,
  length, get_elem?, some, total, Every, flat, IsPrefix, IsPrefix-trans, IsPrefix-append,
  get_elem?-append, get_elem?-append_right, dec_lt, flat-IsPrefix, arith,
}
use mathlib.Core.List.{append-nil}
use native.Mathlib.Nat.{mod-eq_of_lt, mod-eq-sub-mod}
use await.Client
use await.Client.{pattern_from}
use await.Client.Valid.{Ledger, Fits, is_write}
use await.Client.Runs.{Reach-IsValid, length-pattern}
use await.Client.Runs
use await.Server
use await.Server.Serves.{Serves, Step-Serves, started-Serves}
use await.Server.Serves
use await.Link.{
  client_writes, server_writes, client_offers, server_offers, Since, now, then_on, ClientGave,
  ServerGave,
}

module _ (s : Client.Session) (m : Client.Block → List ℕ) (f : List (List ℕ)) where
  no_writes : (ops : List Client.Op) → total is_write ops ≡ 0 → client_writes m ops ≡ []
  no_writes [] h = refl
  no_writes (Client.connecting ∷ ops) h = no_writes ops (omega (arith, h))
  no_writes (Client.reading b n ∷ ops) h = no_writes ops (omega (arith, h))
  no_writes (Client.writing b n ∷ ops) h = absurd (omega (arith, h))
  no_writes (Client.closing ∷ ops) h = no_writes ops (omega (arith, h))

  one_write :
      (ops : List Client.Op)
      → total is_write ops ≡ 1
      → Every (Fits s m f) ops
      → client_writes m ops ≡ f
  one_write [] h fits = absurd (omega (arith, h))
  one_write (Client.connecting ∷ ops) h fits = one_write ops (omega (arith, h)) fits.1
  one_write (Client.reading b n ∷ ops) h fits = one_write ops (omega (arith, h)) fits.1
  one_write (Client.writing b n ∷ ops) h fits = rw (no_writes ops (omega (arith, h))) (sym fits.0.3)
  one_write (Client.closing ∷ ops) h fits = one_write ops (omega (arith, h)) fits.1

-- The writes under way come before all else that is owed.
client_block :
    {size : ℕ} {w : Client.World} (l : Ledger size w)
    → IsPrefix (client_writes w.memory w.pending) (l.in_flight ++ l.held)
client_block {w = w} l = elim (dec_lt 0 (total is_write w.pending)) [
  | yes some_write ↦ (
    l.held,
    ap (λ f. f ++ l.held)
        (sym (
          one_write w.session w.memory l.in_flight w.pending
            (omega (arith, some_write, l.write_side)) l.fits)),
  )
  | no none ↦ (
    l.in_flight ++ l.held,
    ap (λ f. f ++ (l.in_flight ++ l.held))
        (sym (no_writes w.session w.memory l.in_flight w.pending (omega (arith, none)))),
  )
]

-- What the client gives is the start of its first block and what it got.
client_bound :
    {size : ℕ} {w : Client.World}
    → Ledger size w
    → IsPrefix (client_offers w) (pattern_from size 0 ++ flat w.received)
client_bound {size = size} {w = w} l =
    let (rest, e) =
      IsPrefix-append w.sent (client_writes w.memory w.pending) (l.in_flight ++ l.held)
        (client_block l) in
    flat-IsPrefix (w.sent ++ client_writes w.memory w.pending) (pattern_from size 0 ∷ w.received)
      rest (l.stream ∙ e)

server_block :
    (s : Server.Session) (owed : List (List ℕ)) (d : ℕ) (ops : List Server.Op)
    → length ops + d ≡ 1
    → Every (Serves.Fits s owed) ops
    → IsPrefix (server_writes s.buf ops) owed
server_block s owed d [] one fits = (owed, refl)
server_block s owed d (Server.reading n ∷ []) one fits = (owed, refl)
server_block s owed d (Server.writing n ∷ []) one fits = ([], fits.0.1)
server_block s owed d (Server.destroying ∷ []) one fits = (owed, refl)
server_block s owed d (op ∷ op' ∷ ops) one fits = absurd (omega (arith, one))

server_bound :
    {size : ℕ} {p : Server.Peer} → Serves size p → IsPrefix (server_offers p) (flat p.received)
server_bound {p = p} h =
    let (rest, e) =
      IsPrefix-append p.sent (server_writes p.session.buf p.pending) h.owed
        (server_block p.session h.owed p.deleted p.pending h.one h.fits) in
    flat-IsPrefix (p.sent ++ server_writes p.session.buf p.pending) p.received rest (h.stream ∙ e)

get-pattern : (n i j : ℕ) → j < n → get_elem? (pattern_from n i) j ≡ some ((i + j) % 128)
get-pattern zero i j h = absurd (omega arith)
get-pattern (suc n) i zero h = ap (λ k. some (k % 128)) (omega arith)
get-pattern (suc n) i (suc j) h =
    get-pattern n (i + 1) j (omega arith) ∙ ap (λ k. some (k % 128)) (omega arith)

-- A row that starts itself, moved on by `size` places.
periodic :
    (size : ℕ) (r : List ℕ)
    → 0 < size
    → IsPrefix r (pattern_from size 0 ++ r)
    → (fuel i : ℕ) → i < fuel
    → i < length r
    → get_elem? r i ≡ some (i % size % 128)
periodic size r some_size h zero i enough inside = absurd (omega arith)
periodic size r some_size (rest, e) (suc fuel) i enough inside =
    let here : get_elem? r i ≡ get_elem? (pattern_from size 0 ++ r) i =
      sym (get_elem?-append r rest i inside) ∙ ap (λ l. get_elem? l i) (sym e) in
    elim (dec_lt i size) [
      | yes first ↦
          here
          ∙ get_elem?-append (pattern_from size 0) r i (omega (arith, first, length-pattern size 0))
          ∙ get-pattern size 0 i first
          ∙ ap (λ k. some (k % 128)) (omega (arith, mod-eq_of_lt first))
      | no later ↦
          let back : length (pattern_from size 0) + (i - size) ≡ i =
            omega (arith, later, length-pattern size 0) in
          here
          ∙ subst (λ k. get_elem? (pattern_from size 0 ++ r) k ≡ get_elem? r (i - size)) back
              (get_elem?-append_right (pattern_from size 0) r (i - size))
          ∙ periodic size r some_size (rest, e) fuel (i - size) (omega arith) (omega arith)
          ∙ ap (λ k. some (k % 128)) (sym (mod-eq-sub-mod (omega (arith, later))))
    ]

client_grows : {w w' : Client.World} → Client.Step w w' → IsPrefix w.received w'.received
client_grows {w = w} (Client.connects before after err opt e) = ([], sym (append-nil w.received))
client_grows (Client.reads before after b n bytes e some_bytes bound) = (bytes ∷ [], refl)
client_grows {w = w} (Client.read_fails before after b n k e) = ([], sym (append-nil w.received))
client_grows {w = w} (Client.writes before after b n e) = ([], sym (append-nil w.received))
client_grows {w = w} (Client.write_fails before after b n k e) = ([], sym (append-nil w.received))
client_grows {w = w} (Client.closes before after e) = ([], sym (append-nil w.received))
client_grows {w = w} Client.stops = ([], sym (append-nil w.received))

server_grows : {p p' : Server.Peer} → Server.Step p p' → IsPrefix p.received p'.received
unfolding Server.destroy
server_grows (Server.reads before after n bytes e bound) = (bytes ∷ [], refl)
server_grows {p = p} (Server.read_fails before after n k e) = ([], sym (append-nil p.received))
server_grows {p = p} (Server.writes before after n e) = ([], sym (append-nil p.received))
server_grows {p = p} (Server.write_fails before after n e) = ([], sym (append-nil p.received))
server_grows {p = p} (Server.destroys before after e) = ([], sym (append-nil p.received))

-- What only grows in a step only grows.
since_grows :
    {A : Type 0} {R : A → A → Type 0} (f : A → List (List ℕ)) {a b : A}
    → ((a b : A) → R a b → IsPrefix (f a) (f b))
    → Since R a b
    → IsPrefix (f a) (f b)
since_grows f {a = a} grows now = ([], sym (append-nil (f a)))
since_grows f {a = a} {b = c} grows (then_on {b = b} s r) =
    IsPrefix-trans (f a) (f b) (f c) (since_grows f grows s) (grows b c r)

client_reached :
    {size : ℕ} {junk : List ℕ} {w : Client.World}
    → Since Client.Step (Client.started size junk) w
    → Client.Runs.Reach size junk w
client_reached now = Client.Runs.begins
client_reached (then_on s r) = Client.Runs.goes (client_reached s) r

server_reached :
    {size : ℕ} (failed : Bool) {p : Server.Peer}
    → Since Server.Step (Server.started failed size) p
    → Serves size p
server_reached {size = size} failed now = started-Serves failed size
server_reached failed (then_on s r) = Step-Serves r (server_reached failed s)

-- What the client has given at any moment is the start of its first block and what it has got by now.
gave_bound :
    {size : ℕ} {junk : List ℕ} {w : Client.World} {bytes : List ℕ}
    → 0 < size
    → length junk ≡ size
    → ClientGave size junk w bytes
    → IsPrefix bytes (pattern_from size 0 ++ flat w.received)
gave_bound {size = size} {w = w} {bytes = bytes} some_size whole g =
    let first = pattern_from size 0 in
    let (rest, e) = since_grows (λ (w : Client.World). w.received) (λ v v'. client_grows) g.since in
    IsPrefix-trans bytes (client_offers g.moment) (first ++ flat w.received) g.given (
      IsPrefix-trans (client_offers g.moment) (first ++ flat g.moment.received)
        (first ++ flat w.received)
        (client_bound (Reach-IsValid some_size whole (client_reached g.before)).ledger)
        (IsPrefix-append first (flat g.moment.received) (flat w.received)
          (flat-IsPrefix g.moment.received w.received rest e)))

-- A server that has given no more than what it has got, joined to a client's session.
pub relay_lem :
    {size : ℕ} {junk : List ℕ} {w : Client.World} (got : List ℕ)
    → 0 < size
    → length junk ≡ size
    → IsPrefix (flat w.received) got
    → ClientGave size junk w got
    → ClientGave size junk w (flat w.received)
      × ((i : ℕ)
          → i < length (flat w.received)
          → get_elem? (flat w.received) i ≡ some (i % size % 128))
relay_lem {size = size} {junk = junk} {w = w} got some_size whole to_client to_server =
    let back : ClientGave size junk w (flat w.received) = record {
      moment = to_server.moment;
      before = to_server.before;
      since = to_server.since;
      given =
          IsPrefix-trans (flat w.received) got (client_offers to_server.moment) to_client
            to_server.given;
    } in
    (
      back,
      λ i inside.
          periodic size (flat w.received) some_size (gave_bound some_size whole back) (suc i) i
            (omega arith) inside,
    )

-- What the server has given to the client is the start of what it has got by now.
pub server_gave :
    {size : ℕ} {p : Server.Peer} (bytes : List ℕ)
    → ServerGave size p bytes
    → IsPrefix bytes (flat p.received)
server_gave {p = p} bytes g =
    let (rest, e) = since_grows (λ (p : Server.Peer). p.received) (λ v v'. server_grows) g.since in
    IsPrefix-trans bytes (server_offers g.moment) (flat p.received) g.given (
      IsPrefix-trans (server_offers g.moment) (flat g.moment.received) (flat p.received)
        (server_bound (server_reached g.failed g.before))
        (flat-IsPrefix g.moment.received p.received rest e))
