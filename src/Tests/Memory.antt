-- ===== src/Tests/Memory.antt =====
-- Runs of the allocators: `tcalloc` and handler_allocator.hpp.
use await.Base.{true, ◌<◌, ◌≡◌, refl, [], ◌∷◌, arith}
use await.Tcalloc
use await.Tcalloc.Frames.{Sound, frames-Sound, alloc_too_small}
use await.HandlerAllocator
use await.HandlerAllocator.Exclusive.{Exclusive, storage-Exclusive}

abbrev empty : Tcalloc.Heap
empty = record { allocator = Tcalloc.new_allocator; held = [] }

abbrev first : Tcalloc.Heap
first = record {
  allocator = (Tcalloc.alloc 96 empty.allocator).1;
  held = (Tcalloc.alloc 96 empty.allocator).0 ∷ [];
}

abbrev freed : Tcalloc.Heap
freed = record {
  allocator = Tcalloc.free (Tcalloc.alloc 96 empty.allocator).0 96 first.allocator;
  held = [];
}

frames_ran : Tcalloc.Frames.Reach 96 freed
frames_ran =
    Tcalloc.Frames.goes (Tcalloc.Frames.goes Tcalloc.Frames.begins Tcalloc.allocs)
      (Tcalloc.frees [] [] (Tcalloc.alloc 96 empty.allocator).0 refl)

frames-Sound_example : Sound 96 freed
frames-Sound_example = frames-Sound frames_ran

alloc_too_small_example :
    let (p, a) = Tcalloc.alloc 32 Tcalloc.new_allocator in
    ((Tcalloc.alloc 64 (Tcalloc.free p 32 a)).0 ≡ p) × (p.capacity < 64)
unfolding Tcalloc.new_allocator
alloc_too_small_example = alloc_too_small 32 64 Tcalloc.new_allocator refl (omega arith)

abbrev idle : HandlerAllocator.State
idle = record {
  memory = record { allocator = HandlerAllocator.new_allocator; news = 0; deletes = 0 };
  lent = [];
}

-- a handler of 200 bytes takes the storage
abbrev lent : HandlerAllocator.State
lent = record {
  memory = record { allocator = record { in_use = true }; news = 0; deletes = 0 };
  lent =
      record { block = record { pointer = HandlerAllocator.storage; room = 1024 }; asked = 200 }
      ∷ [];
}

storage_ran : HandlerAllocator.Exclusive.Reach lent
unfolding HandlerAllocator.simple_allocate HandlerAllocator.allocate HandlerAllocator.new_allocator
storage_ran =
    HandlerAllocator.Exclusive.goes HandlerAllocator.Exclusive.begins
      (HandlerAllocator.allocates {s = idle} 1 200 _ _ refl)

storage-Exclusive_example : Exclusive lent
storage-Exclusive_example = storage-Exclusive storage_ran
