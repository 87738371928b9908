-- ===== src/Traditional/Readers.antt =====
-- The readers of Traditional.cpp, with the `WorkTracker` that they share.
use await.Base.{
  ℕ, zero, suc, ◌+◌, ◌^◌, ◌≤◌, ◌<◌, ◌≡◌, refl, sym, ap, subst, ◌∙◌, Bool, to_ℕ, ◌⊎◌, inl, inr, List,
  [], ◌∷◌, ◌++◌, length, length-append, replicate, total, total_split, total-replicate, Every,
  Every-split, Every-replace, ◌==◌, arith, length-replicate,
}
use await.Pal.{WorkTracker, new_tracker, release_work}
use await.Traditional.{System, new_system, Step, connects, reads, Reader, start}
use await.Traditional.Handled.{owes, Handled, on_connect-Handled, on_read-Handled}

pub data Reach (sync : Bool) (readers bytes : ℕ) : System → Type 0 where
  begins : Reach sync readers bytes (new_system readers bytes)
  goes : {s s' : System} → Reach sync readers bytes s → Step sync s s' → Reach sync readers bytes s'

-- Each reader has one operation under way until it is deleted, and is deleted once; the tracker counts
-- the readers that are left, and the pool was stopped if and only if none is.
pub record Tracked (readers : ℕ) (s : System) : Type 0 where
  pub one : Every (λ r. owes r ≡ 1) s.readers
  pub number : length s.readers ≡ readers
  pub left : s.tracker.work_count + total (λ r. r.deleted) s.readers ≡ readers
  pub stopped : s.tracker.stops ≡ to_ℕ (total (λ r. r.deleted) s.readers == readers)

-- The readers that are deleted, and one that is not, are no more than all readers.
deleted_le : (rs : List Reader) → Every (λ r. owes r ≡ 1) rs → total (λ r. r.deleted) rs ≤ length rs
deleted_le [] h = omega arith
deleted_le (r ∷ rs) h = omega (arith, h.0, deleted_le rs h.1)

tracker_step :
    {n : ℕ} {t t' : WorkTracker} {d d' : ℕ}
    → n < 2 ^ 32
    → d < n
    → t.work_count + d ≡ n
    → t.stops ≡ to_ℕ (d == n)
    → ((d' ≡ d) × (t' ≡ t)) ⊎ ((d' ≡ d + 1) × (t' ≡ release_work t))
    → (t'.work_count + d' ≡ n) × (t'.stops ≡ to_ℕ (d' == n))
unfolding release_work
tracker_step bound less left stopped (inl (e, f)) = rw (e, f) (left, stopped)
tracker_step {n = n} {t = t} {d = d} bound less left stopped (inr (e, f)) =
    rw (e, f) (ground (arith, bound, less, left, stopped))

-- One handler, in a system of fewer than 2^32 readers.
step-Tracked :
    {readers : ℕ} {s : System} (before after : List Reader) (r r₀ : Reader)
    (out : Reader × WorkTracker)
    → readers < 2 ^ 32
    → s.readers ≡ before ++ (r ∷ after)
    → r₀.deleted ≡ r.deleted
    → owes r₀ + 1 ≡ owes r
    → Handled r₀ s.tracker out
    → Tracked readers s
    → Tracked readers (record { readers = before ++ (out.0 ∷ after); tracker = out.1 })
step-Tracked {readers = readers} {s = s} before after r r₀ out bound e same took h tr =
    let d = total (λ (r : Reader). r.deleted) in
    let here : owes r ≡ 1 =
      (Every-split (λ r. owes r ≡ 1) before r after (subst (Every (λ r. owes r ≡ 1)) e tr.one)).0 in
    let old : d s.readers ≡ r.deleted + d (before ++ after) =
      ap d e ∙ total_split (λ (r : Reader). r.deleted) before r after in
    let new : d (before ++ (out.0 ∷ after)) ≡ out.0.deleted + d (before ++ after) =
      total_split (λ (r : Reader). r.deleted) before out.0 after in
    let fewer : d s.readers < readers = omega (
      arith,
      tr.number,
      old,
      took,
      here,
      same,
      ap length e,
      length-append before (r ∷ after),
      length-append before after,
      deleted_le (before ++ after)
          (Every-split (λ r. owes r ≡ 1) before r after
            (subst (Every (λ r. owes r ≡ 1)) e tr.one)).1,
    ) in
    let tracked =
      tracker_step {t = s.tracker} {t' = out.1} {d' = d (before ++ (out.0 ∷ after))} bound fewer
        tr.left tr.stopped
        (elim h.released [
          | inl (same', t') ↦ inl (omega (arith, same', old, new, same), t')
          | inr (more, t') ↦ inr (omega (arith, more, old, new, same), t')
        ]) in
    record {
      one =
          Every-replace (λ r. owes r ≡ 1) before r out.0 after
            (subst (Every (λ r. owes r ≡ 1)) e tr.one) (λ _. omega (arith, h.one_more, took, here));
      number =
          length-append before (out.0 ∷ after)
          ∙ sym (length-append before (r ∷ after))
          ∙ sym (ap length e)
          ∙ tr.number;
      left = tracked.0;
      stopped = tracked.1;
    }

one_each : (n bytes : ℕ) → Every (λ r. owes r ≡ 1) (replicate n (start bytes))
unfolding start
one_each zero bytes = tt
one_each (suc n) bytes = (refl, one_each n bytes)

none_deleted : (n bytes : ℕ) → total (λ r. r.deleted) (replicate n (start bytes)) ≡ 0
unfolding start
none_deleted n bytes = total-replicate (λ r. r.deleted) n (start bytes) refl

-- In every run of 1 to 2^32 - 1 readers of Traditional.cpp, with calls that end in any way: each
-- reader has one operation under way until it is deleted, which happens once, and then none; the
-- work count is the number of readers that are left; and the thread pool has been stopped once if
-- no reader is left, and not at all if one is.
pub readers-Tracked :
    {sync : Bool} {readers bytes : ℕ} {s : System}
    → 0 < readers
    → readers < 2 ^ 32
    → Reach sync readers bytes s
    → Tracked readers s
unfolding new_system new_tracker
readers-Tracked {readers = readers} {bytes = bytes} some_reader bound begins = record {
  one = one_each readers bytes;
  number = length-replicate readers (start bytes);
  left = omega (arith, none_deleted readers bytes);
  stopped = rw (none_deleted readers bytes) (ground (arith, some_reader));
}
readers-Tracked {sync = sync} some_reader bound
      (goes {s = s} run (connects before after r n ec results e c)) =
    step-Tracked before after r (record r { connecting = n }) _ bound e refl (omega (arith, c))
      (on_connect-Handled sync ec results (record r { connecting = n }) s.tracker)
      (readers-Tracked some_reader bound run)
readers-Tracked {sync = sync} some_reader bound
      (goes {s = s} run (reads before after r n ec bytes results e c)) =
    step-Tracked before after r (record r { reading = n }) _ bound e refl (omega (arith, c))
      (on_read-Handled sync ec bytes results (record r { reading = n }) s.tracker)
      (readers-Tracked some_reader bound run)
