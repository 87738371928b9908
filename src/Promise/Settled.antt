-- ===== src/Promise/Settled.antt =====
-- The future of a coroutine is ready once its body has ended, with what the body ended with.
use await.Base.{
  ◌≡◌, refl, sym, subst, true, false, List, [], ◌∷◌, Option, none, some, ℤ, pos, Returns,
  Returns->>=,
}
use await.Promise.{
  PromiseLib, PromiseType, first_promise, std_void_promise, std_promise, boost_void_promise,
  boost_promise, Body, Frame, in_body, Call, call, wake, settle, feed, step_on, plain, hello,
  number, f, first_main, get_and_print,
}

module _ {I R : Type 0} (l : PromiseLib R) (b : Body I R) where
  -- the frame and the promise of a body that is at `s`, by how it has ended
  abbrev pub SettledAt : Option (Option R) → b.State → Option (Frame b.State) → l.Promise → Type 0
  SettledAt none s o p = (o ≡ some (in_body s)) × (l.is_ready p ≡ false)
  SettledAt (some r) s o p = (o ≡ none) × (l.is_ready p ≡ true) × (l.get p ≡ r)

  abbrev pub Settled : b.State → Call b.State l.Promise → Type 0
  Settled s c = SettledAt (b.result s) s c.frame c.promise

  -- the promise type of all three headers
  abbrev pub plain_type : PromiseType l
  plain_type = record {
    initial_suspend = false;
    final_suspend = false;
    return_value = λ r p. l.set_value r p;
    unhandled_exception = λ p. l.set_exception p;
  }

  settle-Settled :
      (r : Option (Option R)) (s : b.State) (p : l.Promise)
      → l.is_ready p ≡ false
      → Returns (settle l plain_type b r s p) (λ c. SettledAt r s c.frame c.promise)
  settle-Settled none s p fresh = (refl, fresh)
  settle-Settled (some (some r)) s p fresh =
      let (q, set, ready, got) = l.value-kept r p fresh in rw set (refl, ready, got)
  settle-Settled (some none) s p fresh =
      let (q, set, ready, got) = l.exception-kept p fresh in rw set (refl, ready, got)

  wake-Settled :
      (r : Option (Option R)) (i : I) (s : b.State) (o : Option (Frame b.State)) (p : l.Promise)
      → b.result s ≡ r
      → SettledAt r s o p
      → Returns (wake l plain_type b i o p) (Settled (step_on b r i s))
  wake-Settled none i s o p e (frame, fresh) =
      subst (λ o. Returns (wake l plain_type b i o p) (Settled (b.step i s))) (sym frame)
        (settle-Settled (b.result (b.step i s)) (b.step i s) p fresh)
  wake-Settled (some r) i s o p e (frame, ready, got) =
      subst (λ o. Returns (wake l plain_type b i o p) (Settled s)) (sym frame)
        (subst (λ x. SettledAt x s none p) (sym e) (refl, ready, got))

  pub feed-Settled : (is : List I) → Returns (feed l plain_type b is) (Settled (plain b is))
  unfolding feed call plain
  feed-Settled [] = settle-Settled (b.result b.start) b.start l.new l.new-is_ready
  feed-Settled (i ∷ is) =
      Returns->>= (Settled (plain b (i ∷ is))) (feed l plain_type b is)
        (λ c. wake l plain_type b i c.frame c.promise) (feed-Settled is)
        (λ c h. wake-Settled (b.result (plain b is)) i (plain b is) c.frame c.promise refl h)

first_main-prints :
    (l : PromiseLib ℤ) → Returns (first_main l) (λ printed. printed ≡ number (pos 42) ∷ hello ∷ [])
unfolding first_main call feed plain
first_main-prints l =
    Returns->>= (λ printed. printed ≡ number (pos 42) ∷ hello ∷ []) (call l (first_promise l) f)
      (λ c. get_and_print (l.is_ready c.promise) (l.get c.promise) f.start) (feed-Settled l f [])
      (λ c h. rw (h.1, h.2) refl)

-- A coroutine with any of the promise types of first.cpp, future_adapter.h and boost_coro.h, on a
-- promise that behaves as its documentation says, after its call and any resumptions: while its
-- body is suspended its frame is kept and its future is not ready; once the body has ended the
-- frame has gone and the future is ready, with the value that the body has returned, or with the
-- exception that has left it; no result is ever set twice. The program of first.cpp prints `Hello`,
-- waits for nothing, and prints 42.
pub promises-Settle :
    {I R : Type 0} (l : PromiseLib R) (void_lib : PromiseLib (Unit {0})) (int_lib : PromiseLib ℤ)
    (b : Body I R) (void_body : Body I (Unit {0})) (int_body : Body I ℤ) (is : List I)
    → Returns (feed l (std_promise l) b is) (Settled l b (plain b is))
      × Returns (feed l (boost_promise l) b is) (Settled l b (plain b is))
      × Returns
          (feed void_lib (std_void_promise void_lib) void_body is)
          (Settled void_lib void_body (plain void_body is))
      × Returns
          (feed void_lib (boost_void_promise void_lib) void_body is)
          (Settled void_lib void_body (plain void_body is))
      × Returns
          (feed int_lib (first_promise int_lib) int_body is)
          (Settled int_lib int_body (plain int_body is))
      × Returns (first_main int_lib) (λ printed. printed ≡ number (pos 42) ∷ hello ∷ [])
promises-Settle l void_lib int_lib b void_body int_body is = (
  feed-Settled l b is,
  feed-Settled l b is,
  feed-Settled void_lib void_body is,
  feed-Settled void_lib void_body is,
  feed-Settled int_lib int_body is,
  first_main-prints int_lib,
)
