-- ===== src/Sm/Multi/Drain.antt =====
-- The `do … while (moreWork)` of `SmMultiLookup`, and the whole function against naive.h.
use await.Base.{
  ℕ, zero, suc, ◌+◌, ◌-◌, ◌*◌, ◌^◌, ◌≤◌, ◌<◌, Bool, true, false, List, [], ◌∷◌, ◌≡◌, length, get_or,
  total, to_ℕ, if◌then◌else◌, ℤ, Outcome, done, Returns, Returns_trans, Returns->>=, Returns→eq,
  arith, refl, replicate, Bool-cases, inl, inr, fault, no_fuel, subst, sym, ap,
}
use await.Naive.Loop.{found_count}
use await.Sm.{Frame, blank, going, is_found, run}
use await.Sm.Run.{IsReady, Runs, run-Runs}
use await.Sm.Multi.{Lookups, lookup_keys, pass, drain, sm_multi_lookup}
use await.Sm.Multi.Inner.{pending}
use await.Sm.Multi.Fill.{
  is_going, Phase, full, filling, idle, Stage, lookup_keys-Stage, start-Stage,
}

-- what is left to search for a frame
abbrev load : Frame → ℕ
load fr = if going fr.state then fr.len else 0

module _ (v : List ℤ) where
  abbrev AllOk : List Frame → Type 0
  AllOk [] = Unit
  AllOk (fr ∷ frs) = (going fr.state ≡ true → IsReady v fr) × AllOk frs

  AllOk-of_get :
      (frs : List Frame)
      → ((j : ℕ) → j < length frs → is_going v frs j ≡ true → IsReady v (get_or frs j blank))
      → AllOk frs
  AllOk-of_get [] h = tt
  AllOk-of_get (fr ∷ frs) h =
      (h 0 (omega arith), AllOk-of_get frs (λ j hj. h (suc j) (omega arith)))

  load-le : (frs : List Frame) → AllOk frs → total load frs ≤ length frs * length v
  load-le [] h = omega arith
  load-le (fr ∷ frs) h = grind (arith, load-le frs h.1)

  Phase-AllOk : (s : Lookups) → Phase v s → AllOk s.frames
  Phase-AllOk s (full all) = AllOk-of_get s.frames (λ j h e. all j h)
  Phase-AllOk s (filling some_cell marks ok) = AllOk-of_get s.frames ok
  Phase-AllOk s (idle e none_going) = AllOk-of_get s.frames (λ j h g. cc (none_going j h))

  -- What one round has done to the frames and to `result`.
  record Passed (frs : List Frame) (result : ℕ) (out : List Frame × ℕ × Bool) : Type 0 where
    ok : AllOk out.0
    tally : out.1 + total (pending v) out.0 ≡ result + total (pending v) frs
    smaller : total load out.0 + to_ℕ out.2 ≤ total load frs
    finished : out.2 ≡ false → total (pending v) out.0 ≡ 0

  module _ (small : length v < 2 ^ 64) where
    -- a frame that is run, and then the rest
    pass_going :
        (fr : Frame) (frs : List Frame) (result : ℕ)
        → IsReady v fr
        → ((result' : ℕ) → Returns (pass v frs result') (Passed frs result'))
        → (out : Bool × Frame) → run v fr ≡ done out
        → Runs v fr out
        → Returns (pass v (fr ∷ frs) result) (Passed (fr ∷ frs) result)
    unfolding pass
    pass_going fr frs result r ih (true, fr') e runs =
        rw (r.going, e, pass)
          (Returns->>= _ (pass v frs (result + to_ℕ (is_found fr'.state))) _ (ih _) (λ out p.
            record {
              ok = (λ g. absurd (ground arith), p.ok);
              tally = ground (arith, p.tally, r);
              smaller = ground (arith, p.smaller, r);
              finished = λ bad. cc;
            }))
    pass_going fr frs result r ih (false, fr') e runs =
        rw (r.going, e, pass)
          (Returns->>= _ (pass v frs (result + 0)) _ (ih _) (λ out p. record {
            ok = (λ g. runs.0, p.ok);
            tally = ground (arith, p.tally, runs);
            smaller = ground (arith, p.smaller, runs);
            finished = λ bad. cc;
          }))

    pass-Passed :
        (frs : List Frame) (result : ℕ)
        → AllOk frs
        → Returns (pass v frs result) (Passed frs result)
    unfolding pass
    pass-Passed [] result h = record {
      ok = tt;
      tally = refl;
      smaller = omega arith;
      finished = λ _. refl;
    }
    pass-Passed (fr ∷ frs) result h = elim (Bool-cases (going fr.state)) [
      | inl on ↦
          let (out, e, runs) = run-Runs v small fr (h.0 on) in
          pass_going fr frs result (h.0 on) (λ result'. pass-Passed frs result' h.1) out e runs
      | inr off ↦
          rw (off, pass)
            (Returns->>= _ (pass v frs result) _ (pass-Passed frs result h.1) (λ out p. record {
              ok = (h.0, p.ok);
              tally = ground (arith, p.tally);
              smaller = ground (arith, p.smaller);
              finished = λ e. ground (arith, p.finished e);
            }))
    ]

    drain_again :
        (fuel : ℕ) (frs : List Frame) (result : ℕ) (frs' : List Frame) (result' : ℕ)
        → pass v frs result ≡ done (frs', result', true)
        → drain v (suc fuel) frs result ≡ drain v fuel frs' result'
    unfolding drain
    drain_again fuel frs result frs' result' e = rw (e, drain)

    drain_done :
        (fuel : ℕ) (frs : List Frame) (result : ℕ) (frs' : List Frame) (result' : ℕ)
        → pass v frs result ≡ done (frs', result', false)
        → drain v (suc fuel) frs result ≡ done result'
    unfolding drain
    drain_done fuel frs result frs' result' e = rw (e, drain)

    after_pass :
        (fuel : ℕ) (frs : List Frame) (result : ℕ)
        → total load frs < suc fuel
        → ((frs' : List Frame) (result' : ℕ)
            → AllOk frs'
            → total load frs' < fuel
            → Returns (drain v fuel frs' result') (λ r. r ≡ result' + total (pending v) frs'))
        → (out : Outcome (List Frame × ℕ × Bool)) → pass v frs result ≡ out
        → Returns out (Passed frs result)
        → Returns (drain v (suc fuel) frs result) (λ r. r ≡ result + total (pending v) frs)
    after_pass fuel frs result h ih (done (frs', result', true)) e p =
        rw (drain_again fuel frs result frs' result' e) (
          Returns_trans _ _ _ (ih frs' result' p.ok (omega (arith, p.smaller)))
            (omega (arith, p.tally)))
    after_pass fuel frs result h ih (done (frs', result', false)) e p =
        subst (λ r. Returns r (λ k. k ≡ result + total (pending v) frs))
          (sym (drain_done fuel frs result frs' result' e))
          (omega (arith, p.tally, p.finished refl))
    after_pass fuel frs result h ih fault e p = absurd p
    after_pass fuel frs result h ih no_fuel e p = absurd p

    -- With more fuel than cells left, the loop ends and `result` has gained all that was pending.
    drain-total :
        (fuel : ℕ) (frs : List Frame) (result : ℕ)
        → AllOk frs
        → total load frs < fuel
        → Returns (drain v fuel frs result) (λ r. r ≡ result + total (pending v) frs)
    drain-total zero frs result h p = absurd (omega arith)
    drain-total (suc fuel) frs result h p =
        after_pass fuel frs result p (drain-total fuel) (pass v frs result) refl
          (pass-Passed frs result h)

module _ (v : List ℤ) (small : length v < 2 ^ 64) where
  -- On any vector, sorted or not, of fewer than 2^64 cells, for any number of streams but 0 and with
  -- the given fuel, `SmMultiLookup` returns, with no read outside the vector or the frames, and
  -- counts the keys that the search of naive.h finds.
  pub sm_multi_lookup_lem :
      (fuel : ℕ) (lookups : List ℤ) (streams : ℕ)
      → 0 < streams
      → streams * length v < fuel
      → sm_multi_lookup v fuel lookups streams ≡ done (found_count v lookups)
  unfolding sm_multi_lookup
  sm_multi_lookup_lem fuel lookups zero some_stream enough = absurd (omega arith)
  sm_multi_lookup_lem fuel lookups (suc n) some_stream enough = Returns→eq _ _ (
      Returns->>= _ (lookup_keys v (suc n - 1) fuel lookups start)
        (λ s. drain v fuel s.frames s.result)
        (rw last
          (lookup_keys-Stage v small n fuel enough lookups 0 _ (start-Stage v small n fuel enough)))
        drained)
    where
      start : Lookups
      start = record { frames = replicate (suc n) blank; i = suc n - 1; result = 0 }

      last : suc n - 1 ≡ n
      last = omega arith

      drained :
          (s : Lookups)
          → Stage v (suc n) (0 + found_count v lookups) s
          → Returns (drain v fuel s.frames s.result) (λ r. r ≡ found_count v lookups)
      drained s g =
          Returns_trans _ _ _
            (drain-total v small fuel s.frames s.result ok
              (omega (arith, load-le v s.frames ok, ap (λ k. k * length v) g.size)))
            (omega (arith, g.tally))
        where
          ok : AllOk v s.frames
          ok = Phase-AllOk v s g.phase
