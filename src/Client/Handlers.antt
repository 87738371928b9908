-- ===== src/Client/Handlers.antt =====
-- The memory of the handlers of a session of myclient.cpp: `read_allocator_` and `write_allocator_`, from which
-- handler_allocator.hpp serves them. The write of `handle_connect` does not ask `write_allocator_`. As the
-- networking library documents it, a handler's memory is given back before the handler is called.
pub mod Stored
use await.Base.{
  ℕ, zero, suc, ◌+◌, ◌-◌, ◌*◌, ◌/◌, ◌%◌, ◌^◌, leb, Bool-cases, inl, inr, ◌≤◌, ◌<◌, ◌≡◌, refl, ap,
  sym, subst, ◌∙◌, Bool, true, false, List, [], ◌∷◌, ◌++◌, Option, none, some, length, total,
  total_split, total-append, ◌==◌, arith, if◌then◌else◌,
}
use await.HandlerAllocator.{
  Pointer, storage, storage_size, Block, Memory, new_allocator, allocate, deallocate,
  simple_allocate, simple_deallocate,
}
use await.Client.{Op, connecting, reading, writing, closing, World, Step, started}
use await.Client.Valid.{is_read, is_write}
use await.Client.Runs.{Reach, begins, goes}
use await.Client.Echo.{OneEach, session-OneEach}

-- an allocator with its heap, the memory that handlers hold from it, and how often it has thrown
pub record Store : Type 0 where
  pub memory : Memory
  pub held : List Pointer
  pub bad_allocs : ℕ

abbrev pub taken : Store → Option (Block × Memory) → Store
taken s none = record s { bad_allocs = s.bad_allocs + 1 }
taken s (some (b, m)) = record s { memory = m; held = b.pointer ∷ s.held }

-- `SimpleAllocator<char>::allocate`, for a handler of that many bytes
unfoldable pub take : ℕ → Store → Store
take bytes s = taken s (simple_allocate 1 bytes s.memory)

abbrev pub given : Store → List Pointer → Store
given s [] = s
given s (p ∷ ps) = record s { memory = simple_deallocate p s.memory; held = ps }

unfoldable pub give : Store → Store
give s = given s s.held

-- A session; `plain` is the number of writes under way whose handlers have no allocator of their own.
pub record Handlers : Type 0 where
  pub world : World
  pub reads : Store
  pub writes : Store
  pub plain : ℕ

abbrev pub finish : Op → Handlers → Handlers
finish connecting h = h
finish (reading b n) h = record h { reads = give h.reads }
finish (writing b n) h =
    if h.plain == 0 then record h { writes = give h.writes } else record h { plain = h.plain - 1 }
finish closing h = h

-- An operation that a handler starts; those of `handle_connect` are not custom, its read excepted.
abbrev pub launch : Bool → (Op → ℕ) → Op → Handlers → Handlers
launch custom bytes connecting h = h
launch custom bytes (reading b n) h = record h { reads = take (bytes (reading b n)) h.reads }
launch custom bytes (writing b n) h =
    if custom
    then record h { writes = take (bytes (writing b n)) h.writes }
    else record h { plain = h.plain + 1 }
launch custom bytes closing h = h

unfoldable pub launch_all : Bool → (Op → ℕ) → List Op → Handlers → Handlers
launch_all custom bytes [] h = h
launch_all custom bytes (op ∷ ops) h = launch_all custom bytes ops (launch custom bytes op h)

abbrev pub is_custom : Op → Bool
is_custom connecting = false
is_custom (reading b n) = true
is_custom (writing b n) = true
is_custom closing = true

-- A completion with what its handler starts, and `stop`.
pub data Move (bytes : Op → ℕ) : Handlers → Handlers → Type 0 where
  completes :
      {h : Handlers} {w : World} (before after : List Op) (op : Op) (ops : List Op)
      → Step h.world w
      → h.world.pending ≡ before ++ (op ∷ after)
      → w.pending ≡ (before ++ after) ++ ops
      → Move bytes h (record (launch_all (is_custom op) bytes ops (finish op h)) { world = w })
  stops :
      {h : Handlers} {w : World}
      → Step h.world w
      → w.pending ≡ h.world.pending ++ (closing ∷ [])
      → Move bytes h (record h { world = w })

abbrev pub no_memory : Memory
no_memory = record { allocator = record { in_use = false }; news = 0; deletes = 0 }

-- the store as it is when no handler holds its storage, and when one does
abbrev pub store_at : ℕ → Store
store_at zero = record { memory = no_memory; held = []; bad_allocs = 0 }
store_at (suc n) = record {
  memory = record no_memory { allocator = record { in_use = true } };
  held = storage ∷ [];
  bad_allocs = 0;
}

pub data Runs (bytes : Op → ℕ) (size : ℕ) (junk : List ℕ) : Handlers → Type 0 where
  starts :
      Runs bytes size junk
        (record { world = started size junk; reads = store_at 0; writes = store_at 0; plain = 0 })
  moves : {h h' : Handlers} → Runs bytes size junk h → Move bytes h h' → Runs bytes size junk h'
