-- ===== src/HandlerAllocator/Exclusive.antt =====
-- Who holds the storage of handler_allocator.hpp, and how much room the blocks have.
use await.Base.{
  ℕ, ◌+◌, ◌*◌, ◌/◌, ◌%◌, ◌^◌, ◌≤◌, ◌≡◌, refl, ap, subst, ◌∙◌, Bool, true, false, to_ℕ, not, ◌&&◌,
  List, [], ◌∷◌, ◌++◌, none, some, total, total_split, Every, Every-split, ◌==◌, ==_iff, leb, arith,
  if◌then◌else◌,
}
use native.Mathlib.Nat.{div-mul-le_self}
use await.HandlerAllocator.{
  Pointer, storage, heap, Block, Memory, allocate, deallocate, simple_allocate, simple_deallocate,
  or_new, new_allocator, Lent, State, Step, allocates, deallocates, storage_size,
}

pub data Reach : State → Type 0 where
  begins :
      Reach
        (record { memory = record { allocator = new_allocator; news = 0; deletes = 0 }; lent = [] })
  goes : {s s' : State} → Reach s → Step s s' → Reach s'

abbrev pub at_storage : Pointer → ℕ
at_storage storage = 1
at_storage (heap i) = 0

abbrev pub at_heap : Pointer → ℕ
at_heap storage = 0
at_heap (heap i) = 1

abbrev pub is_storage : Lent → ℕ
is_storage l = at_storage l.block.pointer

abbrev pub is_heap : Lent → ℕ
is_heap l = at_heap l.block.pointer

-- Just one handler holds the storage while it is in use, and none while it is not; every block has the
-- room that was asked for; and the blocks of `operator new` that are not deleted are those held.
pub record Exclusive (s : State) : Type 0 where
  pub one_user : total is_storage s.lent ≡ to_ℕ s.memory.allocator.in_use
  pub room : Every (λ l. l.asked ≤ l.block.room) s.lent
  pub balance : s.memory.news ≡ s.memory.deletes + total is_heap s.lent

-- the multiplication that the test of `allocate` lets through did not wrap around
no_wrap : (n size_of : ℕ) → n * size_of % 2 ^ 64 / size_of ≡ n → n * size_of % 2 ^ 64 ≡ n * size_of
no_wrap n size_of h =
    let bytes = n * size_of % 2 ^ 64 in
    let back : n * size_of ≤ bytes =
      subst (λ k. k * size_of ≤ bytes) h (div-mul-le_self bytes size_of) in
    omega (arith, back)

to_ℕ-le : (b : Bool) → to_ℕ b ≤ 1
to_ℕ-le true = omega arith
to_ℕ-le false = omega arith

given_iff :
    (used : Bool) (n : ℕ)
    → (not used && leb n storage_size) ≡ true
    → (to_ℕ used ≡ 0) × (n ≤ storage_size)
given_iff used n h = ground arith

allocate-Exclusive :
    (s : State) (bytes : ℕ)
    → Exclusive s
    → Exclusive (record {
      memory = (or_new bytes s.memory (allocate bytes s.memory.allocator)).1;
      lent =
          record {
            block = (or_new bytes s.memory (allocate bytes s.memory.allocator)).0;
            asked = bytes;
          }
          ∷ s.lent;
    })
unfolding allocate
allocate-Exclusive s bytes h = go (not s.memory.allocator.in_use && leb bytes storage_size) refl
  where
    go :
        (b : Bool)
        → (not s.memory.allocator.in_use && leb bytes storage_size) ≡ b
        → Exclusive (record {
          memory =
              (or_new bytes s.memory (
                if b
                then (some storage, record s.memory.allocator { in_use = true })
                else (none, s.memory.allocator))).1;
          lent =
              record {
                block =
                    (or_new bytes s.memory (
                      if b
                      then (some storage, record s.memory.allocator { in_use = true })
                      else (none, s.memory.allocator))).0;
                asked = bytes;
              }
              ∷ s.lent;
        })
    go true e =
        let (unused, small) = given_iff s.memory.allocator.in_use bytes e in
        record {
          one_user = omega (arith, h.one_user, unused);
          room = (small, h.room);
          balance = omega (arith, h.balance);
        }
    go false e = record {
      one_user = omega (arith, h.one_user);
      room = (omega arith, h.room);
      balance = omega (arith, h.balance);
    }

deallocate-Exclusive :
    (s : State) (before after : List Lent) (l : Lent)
    → s.lent ≡ before ++ (l ∷ after)
    → Exclusive s
    → Exclusive
        (record { memory = simple_deallocate l.block.pointer s.memory; lent = before ++ after })
unfolding simple_deallocate deallocate
deallocate-Exclusive s before after l e h = go l.block.pointer refl
  where
    rest : Every (λ l. l.asked ≤ l.block.room) (before ++ after)
    rest =
        (Every-split (λ l. l.asked ≤ l.block.room) before l after
          (subst (Every (λ l. l.asked ≤ l.block.room)) e h.room)).1

    used : total is_storage s.lent ≡ is_storage l + total is_storage (before ++ after)
    used = ap (total is_storage) e ∙ total_split is_storage before l after

    heaps : total is_heap s.lent ≡ is_heap l + total is_heap (before ++ after)
    heaps = ap (total is_heap) e ∙ total_split is_heap before l after

    go :
        (p : Pointer)
        → l.block.pointer ≡ p
        → Exclusive (record { memory = simple_deallocate p s.memory; lent = before ++ after })
    go storage at = record {
      one_user =
          omega (arith, used, ap at_storage at, h.one_user, to_ℕ-le s.memory.allocator.in_use);
      room = rest;
      balance = omega (arith, heaps, ap at_heap at, h.balance);
    }
    go (heap i) at = record {
      one_user = omega (arith, used, ap at_storage at, h.one_user);
      room = rest;
      balance = omega (arith, heaps, ap at_heap at, h.balance);
    }

simple_allocate-Exclusive :
    (s : State) (size_of n : ℕ) (b : Block) (m : Memory)
    → simple_allocate size_of n s.memory ≡ some (b, m)
    → Exclusive s
    → Exclusive (record { memory = m; lent = record { block = b; asked = n * size_of } ∷ s.lent })
unfolding simple_allocate
simple_allocate-Exclusive s size_of n b m e h = go (bytes / size_of == n) refl e
  where
    bytes : ℕ
    bytes = n * size_of % 2 ^ 64

    given : Block × Memory
    given = or_new bytes s.memory (allocate bytes s.memory.allocator)

    go :
        (t : Bool)
        → (bytes / size_of == n) ≡ t
        → (if t then some given else none) ≡ some (b, m)
        → Exclusive
            (record { memory = m; lent = record { block = b; asked = n * size_of } ∷ s.lent })
    go true fits e =
        let same : given ≡ (b, m) = cc in
        subst
          (λ r.
            Exclusive (record {
              memory = r.1;
              lent = record { block = r.0; asked = n * size_of } ∷ s.lent;
            }))
          same
          (subst
            (λ k.
              Exclusive (record {
                memory = given.1;
                lent = record { block = given.0; asked = k } ∷ s.lent;
              }))
            (no_wrap n size_of ((==_iff (bytes / size_of) n).0 fits))
            (allocate-Exclusive s bytes h))
    go false fits e = absurd (cc)

Step-Exclusive : {s s' : State} → Step s s' → Exclusive s → Exclusive s'
Step-Exclusive {s = s} (allocates size_of n b m e) h = simple_allocate-Exclusive s size_of n b m e h
Step-Exclusive {s = s} (deallocates before after l e) h = deallocate-Exclusive s before after l e h

-- In every run of handlers that give back only what they hold: the storage has one user while it is in
-- use and none while it is not, every block has at least the bytes that its handler asked for, and the
-- calls of `operator new` are those of `operator delete` and one for each block of the heap that is held.
pub storage-Exclusive : {s : State} → Reach s → Exclusive s
unfolding new_allocator
storage-Exclusive begins = record { one_user = refl; room = tt; balance = refl }
storage-Exclusive (goes r s) = Step-Exclusive s (storage-Exclusive r)
