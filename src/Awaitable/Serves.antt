-- ===== src/Awaitable/Serves.antt =====
-- The runs of `Server` of Awaitable.cpp.
use await.Base.{
  ℕ, zero, suc, ◌+◌, ◌-◌, ◌≡◌, refl, ap, ap₂, sym, subst, ◌∙◌, Bool, List, [], ◌∷◌, ◌++◌, map,
  map-append, length, length-append, ◌==◌, Outcome, done, fault, no_fuel, ◌>>=◌, arith,
}
use await.Pal.{WsaResult}
use await.Awaitable.{at_write, serve_client}
use await.Awaitable.Accept.{
  Server, Served, accept_next, accept_suspend, accept_resume, server, resume_server,
}

-- a client, when its write has completed, with or without an error
abbrev pub resume_client : Bool → List WsaResult → Served → Served
resume_client sync results c = record c { client = serve_client sync results }

-- A run, with the errors of the accepts that have completed, 0 for none.
pub data Reach : List ℕ → Server → Type 0 where
  begins : {s : Server} (ok : Bool) (code : ℕ) → server ok code ≡ done s → Reach [] s
  accepts :
      {errors : List ℕ} {s s' : Server} (n error : ℕ) (sync : Bool) (results : List WsaResult)
      (ok : Bool) (code : ℕ)
      → Reach errors s
      → s.accepting ≡ suc n
      → resume_server error sync results ok code s ≡ done s'
      → Reach (errors ++ (error ∷ [])) s'
  writes :
      {errors : List ℕ} {s : Server} (before after : List Served) (c : Served) (sync : Bool)
      (results : List WsaResult)
      → Reach errors s
      → s.clients ≡ before ++ (c ∷ after)
      → c.client ≡ at_write
      → Reach errors (record s { clients = before ++ (resume_client sync results c ∷ after) })

abbrev pub upto : ℕ → ℕ → List ℕ
upto k zero = []
upto k (suc n) = k ∷ upto (suc k) n

pub record Counts (errors : List ℕ) (s : Server) : Type 0 where
  pub accepting : s.accepting ≡ 1
  pub opened : s.opened ≡ length errors + 1
  pub handles : map (λ c. c.handle) s.clients ≡ upto 0 (length errors)
  pub connected : map (λ c. c.connected) s.clients ≡ map (λ e. e == 0) errors

upto-snoc : (k n : ℕ) → upto k n ++ ((k + n) ∷ []) ≡ upto k (suc n)
upto-snoc k zero = ap (λ j. j ∷ []) (omega arith)
upto-snoc k (suc n) =
    ap (λ l. k ∷ l) (ap (λ j. upto (suc k) n ++ (j ∷ [])) (omega arith) ∙ upto-snoc (suc k) n)

map-replace {ℓ κ} :
    {A : Type ℓ} {B : Type κ} (f : A → B) (xs : List A) (y z : A) (ys : List A)
    → f y ≡ f z
    → map f (xs ++ (y ∷ ys)) ≡ map f (xs ++ (z ∷ ys))
map-replace f [] y z ys e = ap (λ b. b ∷ map f ys) e
map-replace f (x ∷ xs) y z ys e = ap (λ l. f x ∷ l) (map-replace f xs y z ys e)

plus_one : (n : ℕ) → n + 1 ≡ suc n
plus_one n = omega arith

-- an accept that starts has one more accept and one more socket
accept_next-done :
    (ok : Bool) (code : ℕ) (s s' : Server)
    → accept_next ok code s ≡ done s'
    → record s { accepting = s.accepting + 1; opened = s.opened + 1 } ≡ s'
accept_next-done ok code s s' e = started (accept_suspend ok code) s s' e
  where
    started :
        (o : Outcome ℕ) (s s' : Server)
        → (o >>= λ status. done (record s { accepting = s.accepting + 1; opened = s.opened + 1 }))
          ≡ done s'
        → record s { accepting = s.accepting + 1; opened = s.opened + 1 } ≡ s'
    started (done status) s s' e = cc
    started fault s s' e = absurd (cc)
    started no_fuel s s' e = absurd (cc)

-- In every run of `Server` of Awaitable.cpp that no panic ends: just one accept is under way; there is one
-- client for each accept that has completed, in order, each with a socket of its own; and those whose accept
-- failed are there too, with a socket that is not connected.
pub server-Counts : {errors : List ℕ} {s : Server} → Reach errors s → Counts errors s
unfolding server resume_server accept_resume
server-Counts {s = s} (begins ok code e) =
    subst (Counts [])
      (accept_next-done ok code (record { accepting = 0; opened = 0; clients = [] }) s e)
      (record { accepting = refl; opened = refl; handles = refl; connected = refl })
server-Counts {s = s'} (accepts {errors = errors} {s = s} n error sync results ok code r a e) =
    let c = server-Counts r in
    let new : Served = record {
      handle = s.opened - 1;
      connected = error == 0;
      client = serve_client sync results;
    } in
    let next : Server = record {
      accepting = s.accepting - 1;
      opened = s.opened;
      clients = s.clients ++ (new ∷ []);
    } in
    subst (Counts (errors ++ (error ∷ []))) (accept_next-done ok code next s' e) (record {
      accepting = omega (arith, c.accepting);
      opened = omega (arith, c.opened, length-append errors (error ∷ []));
      handles =
          map-append (λ d. d.handle) s.clients (new ∷ [])
          ∙ ap₂ (λ l k. l ++ (k ∷ [])) c.handles (omega (arith, c.opened))
          ∙ upto-snoc 0 (length errors)
          ∙ ap (upto 0) (sym (length-append errors (error ∷ []) ∙ plus_one (length errors)));
      connected =
          map-append (λ d. d.connected) s.clients (new ∷ [])
          ∙ ap (λ l. l ++ ((error == 0) ∷ [])) c.connected
          ∙ sym (map-append (λ x. x == 0) errors (error ∷ []));
    })
server-Counts (writes before after c sync results r e w) =
    let h = server-Counts r in
    record {
      accepting = h.accepting;
      opened = h.opened;
      handles =
          sym (map-replace (λ d. d.handle) before c (resume_client sync results c) after refl)
          ∙ ap (map (λ d. d.handle)) (sym e)
          ∙ h.handles;
      connected =
          sym (map-replace (λ d. d.connected) before c (resume_client sync results c) after refl)
          ∙ ap (map (λ d. d.connected)) (sym e)
          ∙ h.connected;
    }
