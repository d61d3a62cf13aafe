-- ===== src/Arena.antt =====
-- The bump allocator: core-engine/include/core/memory_arena.hpp.
-- An address is a number; `operator new` gives the base address of the storage. The destructor,
-- which gives the storage back, has no counterpart.
pub mod Blocks
mod Tests
use network_simulator_platfo.Common.{
  ℕ, ◌+◌, ◌-◌, ◌*◌, ◌/◌, ◌%◌, ◌≤◌, ◌||◌, Option, none, some, List, [], ◌∷◌, ltb, if◌then◌else◌,
}

pub record MemoryArena : Type 0 where
  pub arena_start : ℕ
  pub arena_end : ℕ
  pub current_cursor : ℕ

-- A type's `sizeof` and `alignof`.
pub record Layout : Type 0 where
  pub size : ℕ
  pub alignment : ℕ

-- `MemoryArena(bytes_capacity)` on the storage at `base`.
unfoldable pub make : ℕ → ℕ → MemoryArena
make base bytes_capacity = record {
  arena_start = base;
  arena_end = base + bytes_capacity;
  current_cursor = base;
}

-- The least multiple of `alignment` from `ptr` on.
unfoldable pub round_up : ℕ → ℕ → ℕ
round_up alignment ptr = (ptr + alignment - 1) / alignment * alignment

-- `std::align(alignment, size, ptr, space)`: the aligned pointer, or the null pointer where the
-- object does not fit in the space.
unfoldable pub align : ℕ → ℕ → ℕ → ℕ → Option ℕ
align alignment size ptr space =
    let offset = round_up alignment ptr - ptr in
    if ltb space size || ltb (space - size) offset then none else some (round_up alignment ptr)

-- `allocate<T>`: the new object's address beside the arena, or `std::bad_alloc`.
unfoldable pub allocate : MemoryArena → Layout → Option (ℕ × MemoryArena)
unfolding align
allocate a l = elim (align l.alignment l.size a.current_cursor (a.arena_end - a.current_cursor)) [
  | none ↦ none
  | some ptr ↦ some (ptr, record a { current_cursor = ptr + l.size })
]

unfoldable pub reset : MemoryArena → MemoryArena
reset a = record a { current_cursor = a.arena_start }

-- A series of allocations, up to the first that fails: the blocks that were handed out.
pub record Block : Type 0 where
  pub address : ℕ
  pub layout : Layout

unfoldable pub allocate_all : MemoryArena → List Layout → List Block × MemoryArena
allocate_all a [] = ([], a)
allocate_all a (l ∷ ls) = elim (allocate a l) [
  | none ↦ ([], a)
  | some (ptr, b) ↦
      let (blocks, c) = allocate_all b ls in (record { address = ptr; layout = l } ∷ blocks, c)
]
