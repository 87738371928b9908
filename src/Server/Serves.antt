-- ===== src/Server/Serves.antt =====
-- What a session of myserver.cpp sends, and which operation it has under way.
use await.Base.{
  ℕ, suc, ◌+◌, ◌≤◌, ◌≡◌, refl, sym, ap, subst, ◌∙◌, Bool, true, false, List, [], ◌∷◌, ◌++◌, length,
  length-append, length-replicate, length-overwrite, take-overwrite, Every, Every-split,
  nil_of_length, take, arith,
}
use mathlib.Core.List.{append-nil}
use await.Server.{
  Op, reading, writing, destroying, Session, Peer, Step, reads, read_fails, writes, write_fails,
  destroys, handle_read, handle_write, destroy, started, start, new_session,
}

-- What is asked of the operation under way; `owed` are the blocks that are still to be sent.
abbrev pub Fits : Session → List (List ℕ) → Op → Type 0
Fits s owed (reading n) = (n ≡ length s.buf) × (owed ≡ [])
Fits s owed (writing n) = (n ≤ length s.buf) × (owed ≡ take n s.buf ∷ [])
Fits s owed destroying = Unit

-- One thing is under way until the session is deleted, which happens once, and then nothing is. An
-- operation stays inside the buffer, and what was read is what was sent, but for at most one block.
pub record Serves (size : ℕ) (p : Peer) : Type 0 where
  pub owed : List (List ℕ)
  pub few_owed : length owed ≤ 1
  pub one : length p.pending + p.deleted ≡ 1
  pub block_size : p.session.block_size ≡ size
  pub whole : length p.session.buf ≡ size
  pub fits : Every (Fits p.session owed) p.pending
  pub stream : p.received ≡ p.sent ++ owed

-- What is left when the one operation is over is nothing.
nothing_left :
    {size : ℕ} {p : Peer} (h : Serves size p) (before after : List Op) (op : Op)
    → p.pending ≡ before ++ (op ∷ after)
    → (before ++ after ≡ []) × (p.deleted ≡ 0) × Fits p.session h.owed op
nothing_left {p = p} h before after op e =
    let one : length before + suc (length after) + p.deleted ≡ 1 =
      ap (λ n. n + p.deleted) (sym (ap length e ∙ length-append before (op ∷ after))) ∙ h.one in
    (
      nil_of_length (before ++ after) (omega (arith, one, length-append before after)),
      omega (arith, one),
      (Every-split (Fits p.session h.owed) before op after
          (subst (Every (Fits p.session h.owed)) e h.fits)).0,
    )

-- Only what is under way and the number of deletions change.
renew :
    {size : ℕ} {p : Peer} (h : Serves size p) (pending : List Op) (deleted : ℕ)
    → length pending + deleted ≡ 1
    → Every (Fits p.session h.owed) pending
    → Serves size (record p { pending = pending; deleted = deleted })
renew h pending deleted one fits = record {
  owed = h.owed;
  few_owed = h.few_owed;
  one = one;
  block_size = h.block_size;
  whole = h.whole;
  fits = fits;
  stream = h.stream;
}

pub Step-Serves : {size : ℕ} {p p' : Peer} → Step p p' → Serves size p → Serves size p'
unfolding handle_read handle_write destroy
Step-Serves {p = p} (reads before after n bytes e bound) h =
    let (left, alive, (whole, none_owed)) = nothing_left h before after (reading n) e in
    rw left (record {
      owed = bytes ∷ [];
      few_owed = omega arith;
      one = omega (arith, alive);
      block_size = h.block_size;
      whole = length-overwrite bytes p.session.buf ∙ h.whole;
      fits = (
        (
          omega (arith, bound, whole, length-overwrite bytes p.session.buf),
          ap (λ l. l ∷ []) (sym (take-overwrite bytes p.session.buf (omega (arith, bound, whole)))),
        ),
        tt,
      );
      stream =
          ap (λ l. l ++ (bytes ∷ []))
            (h.stream ∙ ap (λ l. p.sent ++ l) none_owed ∙ append-nil p.sent);
    })
Step-Serves {p = p} (read_fails before after n k e) h =
    let (left, alive, (whole, none_owed)) = nothing_left h before after (reading n) e in
    rw left (renew h (destroying ∷ []) p.deleted (omega (arith, alive)) (tt, tt))
Step-Serves {p = p} (writes before after n e) h =
    let (left, alive, (bound, flies)) = nothing_left h before after (writing n) e in
    rw left (record {
      owed = [];
      few_owed = omega arith;
      one = omega (arith, alive);
      block_size = h.block_size;
      whole = h.whole;
      fits = ((h.block_size ∙ sym h.whole, refl), tt);
      stream =
          h.stream
          ∙ ap (λ l. p.sent ++ l) flies
          ∙ sym (append-nil (p.sent ++ (take n p.session.buf ∷ [])));
    })
Step-Serves {p = p} (write_fails before after n e) h =
    let (left, alive, fits) = nothing_left h before after (writing n) e in
    rw left (renew h (destroying ∷ []) p.deleted (omega (arith, alive)) (tt, tt))
Step-Serves {p = p} (destroys before after e) h =
    let (left, alive, fits) = nothing_left h before after destroying e in
    rw left (renew h [] (p.deleted + 1) (omega (arith, alive)) tt)

pub started-Serves : (failed : Bool) (size : ℕ) → Serves size (started failed size)
unfolding started start new_session
started-Serves true size = record {
  owed = [];
  few_owed = omega arith;
  one = refl;
  block_size = refl;
  whole = length-replicate size 0;
  fits = (tt, tt);
  stream = refl;
}
started-Serves false size = record {
  owed = [];
  few_owed = omega arith;
  one = refl;
  block_size = refl;
  whole = length-replicate size 0;
  fits = ((sym (length-replicate size 0), refl), tt);
  stream = refl;
}
