-- ===== src/Sm/Multi/Fill.antt =====
-- The loop of `SmMultiLookup` over the keys: it first fills the vector of frames, from the last
-- to the first, and then runs all of them in turn.
use await.Base.{
  ℕ, suc, ◌+◌, ◌*◌, ◌^◌, ◌<◌, Bool, true, false, List, [], ◌∷◌, ◌≡◌, length, get_or, replicate,
  length-set, get_or-set_all, length-replicate, get_or-replicate, total-replicate, total-le,
  get_elem?-eq-get_or, total, total-set, to_ℕ, ltb, ℤ, Returns, Returns_mono, Returns->>=,
  ℕ_discrete, arith, refl, ap, ◌∙◌, ◌≢◌,
}
use native.Mathlib.Nat.{add-zero, add_assoc}
use await.Naive.{hits}
use await.Naive.Loop.{found_count}
use await.Sm.{Frame, blank, going, init}
use await.Sm.Run.{IsReady, init-IsReady}
use await.Sm.Multi.{Lookups, refill, lookup_key, lookup_keys}
use await.Sm.Multi.Inner.{pending, AllReady, Advances, pending-init, run_until_free-Advances}

module _ (v : List ℤ) where
  abbrev pub is_going : List Frame → ℕ → Bool
  is_going frs j = going (get_or frs j blank).state

  -- Where the loop over the keys stands.
  pub data Phase (s : Lookups) : Type 0 where
    full : AllReady v s.frames → Phase s
    filling :
        0 < length v
        → ((j : ℕ) → j < length s.frames → is_going s.frames j ≡ ltb s.i j)
        → ((j : ℕ)
            → j < length s.frames
            → is_going s.frames j ≡ true
            → IsReady v (get_or s.frames j blank))
        → Phase s
    idle : length v ≡ 0 → ((j : ℕ) → j < length s.frames → is_going s.frames j ≡ false) → Phase s

  -- What holds between two keys, `count` of those seen so far being in the vector.
  pub record Stage (streams count : ℕ) (s : Lookups) : Type 0 where
    pub size : length s.frames ≡ streams
    pub at : s.i < streams
    pub phase : Phase s
    pub tally : s.result + total (pending v) s.frames ≡ count

  module _ (small : length v < 2 ^ 64) (n fuel : ℕ) (enough : suc n * length v < fuel) where
    full-Stage :
        (key : ℤ) (count : ℕ) (s : Lookups)
        → Stage (suc n) count s
        → AllReady v s.frames
        → Returns
            (lookup_key v n fuel key s)
            (Stage (suc n) (count + to_ℕ (hits v key 0 (length v))))
    unfolding lookup_key
    full-Stage key count s g all =
        rw (get_elem?-eq-get_or s.frames s.i blank at, (all s.i at).going, lookup_key)
          (Returns_mono _ advanced (
            run_until_free-Advances v small some_cell n fuel key s lens at (omega (arith, g.size))
              all))
      where
        at : s.i < length s.frames
        at = omega (arith, g.size, g.at)

        some_cell : 0 < length v
        some_cell = omega (arith, (all s.i at).some_left, (all s.i at).inside)

        lens : total (λ fr. fr.len) s.frames < fuel
        lens = omega (
          arith,
          total-le (λ fr. fr.len) s.frames (length v) blank
              (λ j h. omega (arith, (all j h).inside)),
          ap (λ k. k * length v) g.size,
        )

        advanced :
            (s' : Lookups)
            → Advances v key s s'
            → Stage (suc n) (count + to_ℕ (hits v key 0 (length v))) s'
        advanced s' a = record {
          size = omega (arith, a.size, g.size);
          at = omega (arith, a.at, a.size, g.size);
          phase = full a.ready;
          tally = omega (arith, a.tally, g.tally);
        }

    filling-Phase :
        (key : ℤ) (s : Lookups)
        → s.i < length s.frames
        → length s.frames ≡ suc n
        → 0 < length v
        → ((j : ℕ) → j < length s.frames → is_going s.frames j ≡ ltb s.i j)
        → ((j : ℕ)
            → j < length s.frames
            → is_going s.frames j ≡ true
            → IsReady v (get_or s.frames j blank))
        → Phase (refill v n key (get_or s.frames s.i blank) s)
    filling-Phase key s at size some_cell marks ok = elim (ℕ_discrete s.i 0) [
      | yes e ↦ full (get_or-set_all (λ j. IsReady v) s.frames s.i fr blank (all_others e) ready)
      | no ne ↦
          filling some_cell
            (get_or-set_all (λ j x. going x.state ≡ ltb i' j) s.frames s.i fr blank
              (λ j h other. marks j h ∙ ground arith) (ground (arith, ready)))
            (get_or-set_all (λ j x. going x.state ≡ true → IsReady v x) s.frames s.i fr blank
              (λ j h other. ok j h) (λ _. ready))
    ]
      where
        fr : Frame
        fr = init (get_or s.frames s.i blank) 0 (length v) key

        i' : ℕ
        i' = (refill v n key (get_or s.frames s.i blank) s).i

        ready : IsReady v fr
        ready =
            (init-IsReady v small (get_or s.frames s.i blank) 0 (length v) key some_cell
              (omega arith)).0

        all_others :
            s.i ≡ 0 → (j : ℕ) → j < length s.frames → s.i ≢ j → IsReady v (get_or s.frames j blank)
        all_others e j h other = ok j h (marks j h ∙ ground arith)

    idle-Phase :
        (key : ℤ) (s : Lookups)
        → length v ≡ 0
        → ((j : ℕ) → j < length s.frames → is_going s.frames j ≡ false)
        → Phase (refill v n key (get_or s.frames s.i blank) s)
    unfolding init
    idle-Phase key s e none_going = idle e (
        get_or-set_all (λ j fr. going fr.state ≡ false) s.frames s.i _ blank
          (λ j h ne. none_going j h) (ground arith))

    refill-Stage :
        (key : ℤ) (count : ℕ) (s : Lookups)
        → Stage (suc n) count s
        → is_going s.frames s.i ≡ false
        → Phase (refill v n key (get_or s.frames s.i blank) s)
        → Returns
            (lookup_key v n fuel key s)
            (Stage (suc n) (count + to_ℕ (hits v key 0 (length v))))
    unfolding lookup_key
    refill-Stage key count s g not_going next =
        let fr = init (get_or s.frames s.i blank) 0 (length v) key in
        rw (get_elem?-eq-get_or s.frames s.i blank at, not_going, lookup_key)
          (record {
            size = length-set s.frames s.i fr ∙ g.size;
            at = ground (arith, g.at);
            phase = next;
            tally = ground (
              arith,
              total-set (pending v) s.frames s.i fr blank at,
              pending-init v small key (get_or s.frames s.i blank),
              g.tally,
            );
          })
      where
        at : s.i < length s.frames
        at = omega (arith, g.size, g.at)

    -- One round of the loop over the keys keeps the invariant, and counts the new key.
    lookup_key-Stage :
        (key : ℤ) (count : ℕ) (s : Lookups)
        → Stage (suc n) count s
        → Phase s
        → Returns
            (lookup_key v n fuel key s)
            (Stage (suc n) (count + to_ℕ (hits v key 0 (length v))))
    lookup_key-Stage key count s g (full all) = full-Stage key count s g all
    lookup_key-Stage key count s g (filling some_cell marks ok) =
        refill-Stage key count s g (marks s.i at ∙ ground arith)
          (filling-Phase key s at g.size some_cell marks ok)
      where
        at : s.i < length s.frames
        at = omega (arith, g.size, g.at)
    lookup_key-Stage key count s g (idle e none_going) =
        refill-Stage key count s g (none_going s.i (omega (arith, g.size, g.at)))
          (idle-Phase key s e none_going)

    pub lookup_keys-Stage :
        (keys : List ℤ) (count : ℕ) (s : Lookups)
        → Stage (suc n) count s
        → Returns (lookup_keys v n fuel keys s) (Stage (suc n) (count + found_count v keys))
    unfolding lookup_keys
    lookup_keys-Stage [] count s g = rw add-zero g
    lookup_keys-Stage (key ∷ keys) count s g =
        rw (← add_assoc count (to_ℕ (hits v key 0 (length v))) (found_count v keys)) (
          Returns->>= _ (lookup_key v n fuel key s) (lookup_keys v n fuel keys)
            (lookup_key-Stage key count s g g.phase)
            (λ s' g'. lookup_keys-Stage keys (count + to_ℕ (hits v key 0 (length v))) s' g'))

    pub start-Stage :
        Stage (suc n) 0 (record { frames = replicate (suc n) blank; i = n; result = 0 })
    start-Stage = record {
      size = length-replicate (suc n) blank;
      at = omega arith;
      phase = elim (ℕ_discrete (length v) 0) [
        | yes e ↦ idle e (λ j h. rw (get_or-replicate (suc n) j blank) refl)
        | no ne ↦
            filling (omega arith)
              (λ j h.
                ground (arith, get_or-replicate (suc n) j blank, length-replicate (suc n) blank))
              (λ j h e. ground (arith, get_or-replicate (suc n) j blank))
      ];
      tally = omega (arith, total-replicate (pending v) (suc n) blank refl);
    }
