-- ===== src/Tcalloc/Frames.antt =====
-- The blocks of `tcalloc`: frames of one size, and requests of two sizes.
use await.Base.{
  ℕ, ◌+◌, ◌%◌, ◌^◌, ◌<◌, ◌≡◌, refl, ap, subst, ◌∙◌, true, to_ℕ, List, [], ◌∷◌, length,
  length-append, total, total_split, Every, Every-split, ◌==◌, leb, ltb, arith,
}
use await.Tcalloc.{
  Block, Header, Tcalloc, new_allocator, alloc_from, alloc, free, Heap, Step, allocs, frees,
}

pub data Reach (sz : ℕ) : Heap → Type 0 where
  begins : Reach sz (record { allocator = new_allocator; held = [] })
  goes : {h h' : Heap} → Reach sz h → Step sz h h' → Reach sz h'

-- whether a block is at the address
abbrev pub at : ℕ → Block → ℕ
at i b = to_ℕ (b.address == i)

-- how many blocks are at the address, held or free
abbrev pub copies : ℕ → Heap → ℕ
copies i h = total (at i) h.held + total (λ e. at i e.block) h.allocator.root

abbrev pub FreeFits : ℕ → Header → Type 0
FreeFits sz e = (e.size ≡ sz) × (e.block.capacity ≡ sz)

-- Every block that `malloc` gave is held by one user or stands once in the free list, every frame has the
-- size asked for, and the count is the number of calls of `malloc`.
pub record Sound (sz : ℕ) (h : Heap) : Type 0 where
  pub fits : Every (λ b. b.capacity ≡ sz) h.held
  pub free_fits : Every (FreeFits sz) h.allocator.root
  pub once : (i : ℕ) → copies i h ≡ to_ℕ (ltb i h.allocator.mallocs)
  pub kept : length h.held + length h.allocator.root ≡ h.allocator.mallocs
  pub counted : h.allocator.alloc_count ≡ h.allocator.mallocs % 2 ^ 64

at_new : (i m : ℕ) → to_ℕ (m == i) + to_ℕ (ltb i m) ≡ to_ℕ (ltb i (m + 1))
at_new i m = ground arith

leb_refl : (m n : ℕ) → m ≡ n → leb m n ≡ true
leb_refl m n e = ground arith

module _ {sz : ℕ} where
  alloc_from-Sound :
      (root : List Header) (a : Tcalloc) (held : List Block)
      → Sound sz (record { allocator = record a { root = root }; held = held })
      → Sound sz (record {
        allocator = (alloc_from root sz (record a { root = root })).1;
        held = (alloc_from root sz (record a { root = root })).0 ∷ held;
      })
  alloc_from-Sound [] a held s = record {
    fits = (refl, s.fits);
    free_fits = tt;
    once = λ i. omega (arith, s.once i, at_new i a.mallocs);
    kept = omega (arith, s.kept);
    counted = omega (arith, s.counted);
  }
  alloc_from-Sound (e ∷ next) a held s = rw (leb_refl e.size sz s.free_fits.0.0) (record {
    fits = (s.free_fits.0.1, s.fits);
    free_fits = s.free_fits.1;
    once = λ i. omega (arith, s.once i);
    kept = omega (arith, s.kept);
    counted = s.counted;
  })

  Step-Sound : {h h' : Heap} → Step sz h h' → Sound sz h → Sound sz h'
  unfolding alloc free
  Step-Sound {h = h} allocs s = alloc_from-Sound h.allocator.root h.allocator h.held s
  Step-Sound {h = h} (frees before after p e) s =
      let (fits, rest) =
        Every-split (λ b. b.capacity ≡ sz) before p after
          (subst (Every (λ b. b.capacity ≡ sz)) e s.fits) in
      record {
        fits = rest;
        free_fits = ((refl, fits), s.free_fits);
        once =
            λ i. omega (arith, s.once i, ap (total (at i)) e ∙ total_split (at i) before p after);
        kept = omega (
          arith,
          s.kept,
          ap length e,
          length-append before (p ∷ after),
          length-append before after,
        );
        counted = s.counted;
      }

-- In every run of users that ask for frames of one size and give back what they hold: every frame has
-- that size, also in the free list; each block from `malloc` is held by one user or stands once in the
-- free list, and no other block is; and the count of `stats` is the number of calls of `malloc`,
-- modulo 2^64.
pub frames-Sound : {sz : ℕ} {h : Heap} → Reach sz h → Sound sz h
unfolding new_allocator
frames-Sound begins = record {
  fits = tt;
  free_fits = tt;
  once = λ i. ground arith;
  kept = refl;
  counted = refl;
}
frames-Sound (goes r s) = Step-Sound s (frames-Sound r)

leb_of_lt : (m n : ℕ) → m < n → leb m n ≡ true
leb_of_lt m n h = ground arith

-- With an empty free list, when a block is asked for and given back, a later request for more bytes
-- gets the same block, which has fewer bytes than are asked for.
pub alloc_too_small :
    (small big : ℕ) (a : Tcalloc)
    → a.root ≡ []
    → small < big
    → let (p, a') = alloc small a in ((alloc big (free p small a')).0 ≡ p) × (p.capacity < big)
unfolding alloc free
alloc_too_small small big a empty less = rw (leb_of_lt small big less) (refl, rw empty less)
