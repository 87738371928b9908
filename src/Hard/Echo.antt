-- ===== src/Hard/Echo.antt =====
-- What the coroutine session of hard1.cpp sends, against what it reads.
use await.Base.{
  ℕ, zero, suc, ◌≤◌, ◌≡◌, refl, ap₂, sym, subst, ◌∙◌, Bool, true, false, List, [], ◌∷◌, ◌++◌, ◌⊎◌,
  inl, inr, length, take, overwrite, length-overwrite, take-overwrite, length-replicate, arith,
}
use await.Hard
use await.Hard.Same.{run_coroutine}

-- The blocks sent are the blocks read, but for the one that is being sent, or that was when the session ended.
abbrev pub EchoesAt : Hard.Point → Hard.Session → Type 0
EchoesAt Hard.at_read s = s.received ≡ s.sent
EchoesAt (Hard.at_write n) s = s.received ≡ s.sent ++ (take n s.buf ∷ [])
EchoesAt Hard.finished s =
    (s.received ≡ s.sent) ⊎ ((b : List ℕ) × (s.received ≡ s.sent ++ (b ∷ [])))

pub record EchoesSoFar (size : ℕ) (s : Hard.Session) : Type 0 where
  pub block_size : s.block_size ≡ size
  pub room : length s.buf ≡ size
  pub echoes : EchoesAt s.point s

take-le : (n : ℕ) (xs : List ℕ) → length (take n xs) ≤ n
take-le zero xs = omega arith
take-le (suc n) [] = omega arith
take-le (suc n) (x ∷ xs) = omega (arith, take-le n xs)

-- the block that a read brings is what the write behind it sends
block_lem :
    (size : ℕ) (bytes buf : List ℕ)
    → length buf ≡ size
    → take (length (take size bytes)) (overwrite (take size bytes) buf) ≡ take size bytes
block_lem size bytes buf h =
    take-overwrite (take size bytes) buf (omega (arith, take-le size bytes, h))

step-Echoes :
    (size : ℕ) (pt : Hard.Point) (c : Hard.Completion) (s : Hard.Session)
    → pt ≡ s.point
    → s.block_size ≡ size
    → length s.buf ≡ size
    → EchoesAt pt s
    → EchoesSoFar size (Hard.complete_at pt c s)
unfolding Hard.resume_read Hard.resume_write
step-Echoes size Hard.at_read (Hard.read_done bytes) s p e r h = record {
  block_size = e;
  room = length-overwrite (take s.block_size bytes) s.buf ∙ r;
  echoes = ap₂ (λ l b. l ++ (b ∷ [])) h (sym (block_lem s.block_size bytes s.buf (r ∙ sym e)));
}
step-Echoes size Hard.at_read Hard.write_done s p e r h = record {
  block_size = e;
  room = r;
  echoes = subst (λ q. EchoesAt q s) p h;
}
step-Echoes size Hard.at_read Hard.fails s p e r h = record {
  block_size = e;
  room = r;
  echoes = inl h;
}
step-Echoes size (Hard.at_write n) (Hard.read_done bytes) s p e r h = record {
  block_size = e;
  room = r;
  echoes = subst (λ q. EchoesAt q s) p h;
}
step-Echoes size (Hard.at_write n) Hard.write_done s p e r h = record {
  block_size = e;
  room = r;
  echoes = h;
}
step-Echoes size (Hard.at_write n) Hard.fails s p e r h = record {
  block_size = e;
  room = r;
  echoes = inr (take n s.buf, h);
}
step-Echoes size Hard.finished c s p e r h = record {
  block_size = e;
  room = r;
  echoes = subst (λ q. EchoesAt q s) p h;
}

start-Echoes : (failed : Bool) (size : ℕ) → EchoesSoFar size (Hard.session failed size)
unfolding Hard.session
start-Echoes true size = record {
  block_size = refl;
  room = length-replicate size 0;
  echoes = inl refl;
}
start-Echoes false size = record {
  block_size = refl;
  room = length-replicate size 0;
  echoes = refl;
}

pub hard1-Echoes :
    (failed : Bool) (size : ℕ) (cs : List Hard.Completion)
    → EchoesSoFar size (run_coroutine failed size cs)
unfolding run_coroutine Hard.complete
hard1-Echoes failed size [] = start-Echoes failed size
hard1-Echoes failed size (c ∷ cs) =
    let s = run_coroutine failed size cs in
    let h = hard1-Echoes failed size cs in
    step-Echoes size s.point c s refl h.block_size h.room h.echoes
