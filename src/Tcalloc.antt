-- ===== src/Tcalloc.antt =====
-- `tcalloc` of 2018_CppCon/src/coro_infra.h: the free list that coroutine frames come from. A block is
-- its address with the size that `malloc` gave it; the free list keeps with it the size that `free` was
-- told. `malloc` gives every block a new address. `size_t` counters wrap around.
pub mod Frames
use await.Base.{ℕ, suc, ◌+◌, ◌%◌, ◌^◌, ◌≡◌, List, [], ◌∷◌, ◌++◌, leb, if◌then◌else◌}

pub record Block : Type 0 where
  pub address : ℕ
  pub capacity : ℕ

-- an element of the free list
pub record Header : Type 0 where
  pub block : Block
  pub size : ℕ

pub record Tcalloc : Type 0 where
  pub root : List Header
  pub last_size_allocated : ℕ
  pub total : ℕ
  pub alloc_count : ℕ
  pub mallocs : ℕ  -- how often `malloc` was called

unfoldable pub new_allocator : Tcalloc
new_allocator = record {
  root = [];
  last_size_allocated = 0;
  total = 0;
  alloc_count = 0;
  mallocs = 0;
}

abbrev pub fresh : ℕ → Tcalloc → Block × Tcalloc
fresh sz a = (
  record { address = a.mallocs; capacity = sz },
  record a {
    alloc_count = (a.alloc_count + 1) % 2 ^ 64;
    total = (a.total + sz) % 2 ^ 64;
    last_size_allocated = sz;
    mallocs = a.mallocs + 1;
  },
)

abbrev pub alloc_from : List Header → ℕ → Tcalloc → Block × Tcalloc
alloc_from [] sz a = fresh sz a
alloc_from (root ∷ next) sz a =
    if leb root.size sz then (root.block, record a { root = next }) else fresh sz a

unfoldable pub alloc : ℕ → Tcalloc → Block × Tcalloc
alloc sz a = alloc_from a.root sz a

unfoldable pub free : Block → ℕ → Tcalloc → Tcalloc
free p sz a = record a { root = record { block = p; size = sz } ∷ a.root }

-- The allocator with the blocks that its users hold.
pub record Heap : Type 0 where
  pub allocator : Tcalloc
  pub held : List Block

-- the users of one program ask for and give back frames of one size
pub data Step (sz : ℕ) : Heap → Heap → Type 0 where
  allocs :
      {h : Heap}
      → Step sz h (record {
        allocator = (alloc sz h.allocator).1;
        held = (alloc sz h.allocator).0 ∷ h.held;
      })
  frees :
      {h : Heap} (before after : List Block) (p : Block)
      → h.held ≡ before ++ (p ∷ after)
      → Step sz h (record { allocator = free p sz h.allocator; held = before ++ after })
