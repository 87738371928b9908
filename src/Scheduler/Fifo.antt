-- ===== src/Scheduler/Fifo.antt =====
-- The ring as the list of the handles that wait.
use await.Base.{
  ℕ, zero, suc, ◌+◌, ◌-◌, ◌%◌, ◌≤◌, ◌<◌, ◌≡◌, refl, ap, ap₂, ◌∙◌, Option, none, List, [], ◌∷◌, ◌++◌,
  length, get_or, set, length-set, get_or-set_self, get_or-set_ne, arith,
}
use await.Scheduler.{empty_queue, SchedulerQueue, after, push_back, pop_front, try_pop_front}

module _ {ℓ} {H : Type ℓ} where
  -- the `n` cells from index `t` on, going round
  cells : List (Option H) → ℕ → ℕ → List (Option H)
  cells arr t zero = []
  cells arr t (suc n) = get_or arr t none ∷ cells arr (after t) n

  -- A write at least `n` places on leaves them alone.
  cells-set :
      (arr : List (Option H)) (h : Option H) (n t i : ℕ)
      → t < 256
      → i < 256
      → n ≤ (i + 256 - t) % 256
      → cells (set arr i h) t n ≡ cells arr t n
  unfolding cells
  cells-set arr h zero t i ht hi far = refl
  cells-set arr h (suc n) t i ht hi far =
      ap₂ ◌∷◌ (get_or-set_ne arr h none (λ e. absurd (omega arith)))
        (cells-set arr h n (after t) i (omega arith) hi (omega arith))

  cells_snoc :
      (arr : List (Option H)) (n t : ℕ)
      → t < 256
      → cells arr t (suc n) ≡ cells arr t n ++ (get_or arr ((t + n) % 256) none ∷ [])
  unfolding cells
  cells_snoc arr zero t ht = ap (λ k. get_or arr k none ∷ []) (omega arith)
  cells_snoc arr (suc n) t ht =
      ap (λ l. get_or arr t none ∷ l)
        (cells_snoc arr n (after t) (omega arith)
          ∙ ap (λ k. cells arr (after t) n ++ (get_or arr k none ∷ [])) (omega arith))

  -- how many handles the two indices leave in the ring
  abbrev pub size : SchedulerQueue H → ℕ
  size q = (q.head + 256 - q.tail) % 256

  pub contents : SchedulerQueue H → List (Option H)
  contents q = cells q.arr q.tail (size q)

  pub record IsValid (q : SchedulerQueue H) : Type 0 where
    pub head_in : q.head < 256
    pub tail_in : q.tail < 256
    pub cells_there : length q.arr ≡ 256

  cells_of_size : (arr : List (Option H)) (t : ℕ) {n m : ℕ} → n ≡ m → cells arr t n ≡ cells arr t m
  cells_of_size arr t e = ap (cells arr t) e

  pub length-contents : (q : SchedulerQueue H) → length (contents q) ≡ size q
  unfolding contents cells
  length-contents q = counted q.arr (size q) q.tail
    where
      counted : (arr : List (Option H)) (n t : ℕ) → length (cells arr t n) ≡ n
      counted arr zero t = refl
      counted arr (suc n) t = ap suc (counted arr n (after t))

  module _ {q : SchedulerQueue H} (h : Option H) (valid : IsValid q) where
    pub push_back-IsValid : IsValid (push_back h q)
    unfolding push_back
    push_back-IsValid = record {
      head_in = omega arith;
      tail_in = valid.tail_in;
      cells_there = length-set q.arr q.head h ∙ valid.cells_there;
    }

    -- With at most 254 handles in the ring, `push_back` adds the handle at the back of the queue.
    pub push_back-contents : size q < 255 → contents (push_back h q) ≡ contents q ++ (h ∷ [])
    unfolding push_back contents
    push_back-contents room =
        cells_of_size (set q.arr q.head h) q.tail {m = suc (size q)} (ground (arith, valid))
        ∙ cells_snoc (set q.arr q.head h) (size q) q.tail valid.tail_in
        ∙ ap₂ (λ l x. l ++ (x ∷ []))
            (cells-set q.arr h (size q) q.tail q.head valid.tail_in valid.head_in (omega arith))
            (ap (λ k. get_or (set q.arr q.head h) k none) {y = q.head} (ground (arith, valid))
              ∙ get_or-set_self q.arr q.head h none
                  (omega (arith, valid.head_in, valid.cells_there)))

    pub size-push_back : size q < 255 → size (push_back h q) ≡ size q + 1
    unfolding push_back
    size-push_back room = ground (arith, valid)

    pub size-push_back_mod : size (push_back h q) ≡ (size q + 1) % 256
    unfolding push_back
    size-push_back_mod = ground (arith, valid)

    -- With 255 handles in the ring, `push_back` makes it look empty: all 256 handles are lost to
    -- `try_pop_front`.
    pub push_back_full :
        size q ≡ 255
        → (contents (push_back h q) ≡ []) × (try_pop_front (push_back h q) ≡ (none, push_back h q))
    unfolding push_back contents try_pop_front cells
    push_back_full full = (
      cells_of_size (set q.arr q.head h) q.tail {m = 0} (ground (arith, valid)),
      ground (arith, valid),
    )

  module _ {q : SchedulerQueue H} (valid : IsValid q) where
    pub pop_front-IsValid : IsValid (pop_front q).1
    unfolding pop_front
    pop_front-IsValid = record {
      head_in = valid.head_in;
      tail_in = omega arith;
      cells_there = valid.cells_there;
    }

    -- A queue that is not empty gives up its front.
    pub pop_front-contents : 0 < size q → contents q ≡ (pop_front q).0 ∷ contents (pop_front q).1
    unfolding pop_front contents cells
    pop_front-contents some_left =
        cells_of_size q.arr q.tail {m = suc (size (pop_front q).1)} (ground (arith, valid))

    pub try_pop_front_of_empty : size q ≡ 0 → try_pop_front q ≡ (none, q)
    unfolding try_pop_front
    try_pop_front_of_empty e = ground (arith, valid)

    pub try_pop_front_of_some : 0 < size q → try_pop_front q ≡ pop_front q
    unfolding try_pop_front
    try_pop_front_of_some h = ground (arith, valid)

    pub size-pop_front : 0 < size q → size (pop_front q).1 ≡ size q - 1
    unfolding pop_front
    size-pop_front h = ground (arith, valid)

pub empty_queue-IsValid {ℓ} :
    (H : Type ℓ) → IsValid (empty_queue H) × (contents (empty_queue H) ≡ [])
unfolding empty_queue contents cells
empty_queue-IsValid H = (omega arith, refl)
