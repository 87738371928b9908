-- ===== src/HandlerAllocator.antt =====
-- 2017_CppCon/live/handler_allocator.hpp: one storage of 1024 bytes for the handlers of one kind, and
-- the global heap where that is in use or too small. A block is where it is and how many bytes it
-- has.
pub mod Exclusive
use await.Base.{
  ℕ, ◌+◌, ◌*◌, ◌/◌, ◌%◌, ◌^◌, ◌≡◌, Bool, true, false, not, ◌&&◌, List, [], ◌∷◌, ◌++◌, Option, none,
  some, leb, ◌==◌, if◌then◌else◌,
}

pub data Pointer : Type 0 where
  storage : Pointer  -- `storage_.data()`
  heap : (address : ℕ) → Pointer

-- the size of `storage_`
abbrev pub storage_size : ℕ
storage_size = 1024

pub record HandlerAllocator : Type 0 where
  pub in_use : Bool

unfoldable pub new_allocator : HandlerAllocator
new_allocator = record { in_use = false }

unfoldable pub allocate : ℕ → HandlerAllocator → Option Pointer × HandlerAllocator
allocate size a =
    if not a.in_use && leb size storage_size
    then (some storage, record a { in_use = true })
    else (none, a)

unfoldable pub deallocate : Pointer → HandlerAllocator → Bool × HandlerAllocator
deallocate storage a = (true, record a { in_use = false })
deallocate (heap address) a = (false, a)

-- a pointer with the number of bytes behind it
pub record Block : Type 0 where
  pub pointer : Pointer
  pub room : ℕ

-- The allocator, and how often `operator new` and `operator delete` were called.
pub record Memory : Type 0 where
  pub allocator : HandlerAllocator
  pub news : ℕ
  pub deletes : ℕ

abbrev pub or_new : ℕ → Memory → Option Pointer × HandlerAllocator → Block × Memory
or_new bytes m (some p, a) =
    (record { pointer = p; room = storage_size }, record m { allocator = a })
or_new bytes m (none, a) =
    (record { pointer = heap m.news; room = bytes }, record m { allocator = a; news = m.news + 1 })

-- `SimpleAllocator<T>::allocate`, for a `T` of `size_of` bytes; `none` is `bad_alloc`
unfoldable pub simple_allocate : ℕ → ℕ → Memory → Option (Block × Memory)
unfolding allocate
simple_allocate size_of n m =
    let bytes = n * size_of % 2 ^ 64 in
    if bytes / size_of == n then some (or_new bytes m (allocate bytes m.allocator)) else none

unfoldable pub simple_deallocate : Pointer → Memory → Memory
unfolding deallocate
simple_deallocate p m =
    let (mine, a) = deallocate p m.allocator in
    if mine then record m { allocator = a } else record m { allocator = a; deletes = m.deletes + 1 }

-- a block that a handler holds, and how many bytes it asked for
pub record Lent : Type 0 where
  pub block : Block
  pub asked : ℕ

pub record State : Type 0 where
  pub memory : Memory
  pub lent : List Lent

-- Handlers ask for `n` objects of `size_of` bytes, and give back what they hold.
pub data Step : State → State → Type 0 where
  allocates :
      {s : State} (size_of n : ℕ) (b : Block) (m : Memory)
      → simple_allocate size_of n s.memory ≡ some (b, m)
      → Step s (record { memory = m; lent = record { block = b; asked = n * size_of } ∷ s.lent })
  deallocates :
      {s : State} (before after : List Lent) (l : Lent)
      → s.lent ≡ before ++ (l ∷ after)
      → Step s
          (record { memory = simple_deallocate l.block.pointer s.memory; lent = before ++ after })
