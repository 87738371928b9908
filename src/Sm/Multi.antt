-- ===== src/Sm/Multi.antt =====
-- `SmMultiLookup` of 2018_CppCon/src/sm.h: many lookups at once over a vector of frames.
-- `&v[0]` and `beg + v.size()` are the indices 0 and `length v`.
pub mod Inner
pub mod Fill
pub mod Drain
use await.Base.{
  ℕ, zero, suc, ◌+◌, ◌-◌, Bool, true, false, ◌&&◌, none, some, List, [], ◌∷◌, ◌==◌, if◌then◌else◌,
  to_ℕ, get_elem?, set, replicate, length, ℤ, Outcome, done, fault, no_fuel, ◌>>=◌,
}
use await.Sm.{Frame, blank, going, is_found, init, run}

-- the locals `f`, `i` and `result`
pub record Lookups : Type 0 where
  pub frames : List Frame
  pub i : ℕ
  pub result : ℕ

module _ (v : List ℤ) (n : ℕ) where
  -- `if (i == 0) i = N; else --i;`
  abbrev pub turn : Lookups → Lookups
  turn s = record s { i = if s.i == 0 then n else s.i - 1 }

  -- `fr->init(beg, end, key);` and the turn that follows it
  abbrev pub refill : ℤ → Frame → Lookups → Lookups
  refill key fr s = turn (record s { frames = set s.frames s.i (init fr 0 (length v) key) })

  -- the `for (;;)`, with fuel
  unfoldable pub run_until_free : ℕ → ℤ → Lookups → Outcome Lookups
  run_until_free zero key s = no_fuel
  run_until_free (suc fuel) key s = elim (get_elem? s.frames s.i) [
    | none ↦ fault
    | some fr ↦ elim (run v fr) [
      | done (true, fr') ↦
          done (refill key fr' (record s { result = s.result + to_ℕ (is_found fr'.state) }))
      | done (false, fr') ↦
          run_until_free fuel key (turn (record s { frames = set s.frames s.i fr' }))
      | fault ↦ fault
      | no_fuel ↦ no_fuel
    ]
  ]

  -- the body of the loop over the keys
  unfoldable pub lookup_key : ℕ → ℤ → Lookups → Outcome Lookups
  lookup_key fuel key s = elim (get_elem? s.frames s.i) [
    | none ↦ fault
    | some fr ↦ elim (going fr.state) [
      | false ↦ done (refill key fr s)
      | true ↦ run_until_free fuel key s
    ]
  ]

  unfoldable pub lookup_keys : ℕ → List ℤ → Lookups → Outcome Lookups
  lookup_keys fuel [] s = done s
  lookup_keys fuel (key ∷ keys) s = lookup_key fuel key s >>= lookup_keys fuel keys

module _ (v : List ℤ) where
  -- one round of the `do`: the frames, `result` and `moreWork`
  unfoldable pub pass : List Frame → ℕ → Outcome (List Frame × ℕ × Bool)
  pass [] result = done ([], result, false)
  pass (fr ∷ frs) result = elim (going fr.state) [
    | false ↦ pass frs result >>= λ (frs', result', more). done (fr ∷ frs', result', more)
    | true ↦ elim (run v fr) [
      | done (finished, fr') ↦
          pass frs (result + to_ℕ (finished && is_found fr'.state)) >>= λ (frs', result', more).
          done (fr' ∷ frs', result', true)
      | fault ↦ fault
      | no_fuel ↦ no_fuel
    ]
  ]

  -- `do … while (moreWork);`, with fuel
  unfoldable pub drain : ℕ → List Frame → ℕ → Outcome ℕ
  drain zero frs result = no_fuel
  drain (suc fuel) frs result = elim (pass frs result) [
    | done (frs', result', more) ↦ elim more [
      | true ↦ drain fuel frs' result'
      | false ↦ done result'
    ]
    | fault ↦ fault
    | no_fuel ↦ no_fuel
  ]

  unfoldable pub sm_multi_lookup : ℕ → List ℤ → ℕ → Outcome ℕ
  sm_multi_lookup fuel lookups streams =
      let n = streams - 1 in
      lookup_keys v n fuel lookups (record { frames = replicate streams blank; i = n; result = 0 })
      >>= λ s. drain fuel s.frames s.result
