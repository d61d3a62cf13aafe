-- ===== src/Arena/Blocks.antt =====
-- The blocks that an arena hands out lie inside it, are aligned and do not overlap.
use native.Mathlib.Nat.{le_refl, mul-mod_left, div-mul-le_self, lt-div-mul-add}
use network_simulator_platfo.Common.{
  subst, ℕ, ◌+◌, ◌-◌, ◌%◌, ◌≤◌, ◌<◌, ◌≡◌, refl, ap, ◌∙◌, ◌↔◌, inl, inr, none, some, List, [], ◌∷◌,
  arith, All, Option-cases,
}
use network_simulator_platfo.Arena.{
  MemoryArena, Layout, Block, make, round_up, allocate, reset, allocate_all,
}

pub record IsValid (a : MemoryArena) : Type 0 where
  pub started : a.arena_start ≤ a.current_cursor
  pub within : a.current_cursor ≤ a.arena_end

-- `std::align` moves a pointer to the least multiple of the alignment from it on.
pub round_up_bounds :
    (a p : ℕ) → 0 < a → (p ≤ round_up a p) × (round_up a p < p + a) × (round_up a p % a ≡ 0)
unfolding round_up
round_up_bounds a p h = (
  omega (arith, lt-div-mul-add {a = p + a - 1} {b = a} h),
  omega (arith, div-mul-le_self (p + a - 1) a),
  mul-mod_left _ a,
)

-- An allocation on a valid arena, with an alignment above 0, fails exactly when the object, at the
-- cursor rounded up, does not end within the arena.
pub allocate_fits :
    (a : MemoryArena) (l : Layout)
    → IsValid a
    → 0 < l.alignment
    → (allocate a l ≡ none) ↔ (a.arena_end < round_up l.alignment a.current_cursor + l.size)
unfolding allocate
allocate_fits a l v h =
    let b = round_up_bounds l.alignment a.current_cursor h in (λ e. ground arith, λ e. ground arith)

-- One that succeeds gives an aligned address behind the cursor, and moves the cursor to the end of
-- the object, which lies within the arena.
allocate-some :
    (a : MemoryArena) (l : Layout) (ptr : ℕ) (b : MemoryArena)
    → IsValid a
    → 0 < l.alignment
    → allocate a l ≡ some (ptr, b)
    → (a.current_cursor ≤ ptr)
      × (ptr % l.alignment ≡ 0)
      × (b ≡ record a { current_cursor = ptr + l.size })
      × (ptr + l.size ≤ a.arena_end)
unfolding allocate
allocate-some a l ptr b v h e =
    let r = round_up_bounds l.alignment a.current_cursor h in ground arith

-- The blocks follow one another between two addresses, each at a multiple of its alignment; so no
-- two of them overlap.
abbrev pub Apart : ℕ → ℕ → List Block → Type 0
Apart lo hi [] = lo ≤ hi
Apart lo hi (b ∷ bs) =
    (lo ≤ b.address)
    × (b.address % b.layout.alignment ≡ 0)
    × Apart (b.address + b.layout.size) hi bs

-- In any series of allocations on a valid arena, with alignments above 0, the blocks lie inside the
-- free part of the arena, aligned and apart from one another; the arena stays valid, and its storage
-- stays where it is.
pub allocate_all-Apart :
    (a : MemoryArena) (ls : List Layout)
    → IsValid a
    → All (λ l. 0 < l.alignment) ls
    → let (blocks, c) = allocate_all a ls in
      Apart a.current_cursor c.current_cursor blocks
      × IsValid c
      × (c.arena_start ≡ a.arena_start)
      × (c.arena_end ≡ a.arena_end)
unfolding allocate_all
allocate_all-Apart a [] v h = (le_refl _, v, refl, refl)
allocate_all-Apart a (l ∷ ls) v h = elim (Option-cases (allocate a l)) [
  | inl e ↦ rw (e, allocate_all) (le_refl _, v, refl, refl)
  | inr ((ptr, b), e) ↦
      let f = allocate-some a l ptr b v h.0 e in
      let ih = allocate_all-Apart b ls (ground arith) h.1 in
      let cursor : b.current_cursor ≡ ptr + l.size = ap (λ m. m.current_cursor) f.2 in
      rw (e, allocate_all)
        (
          (
            f.0,
            f.1,
            subst (λ x. Apart x (allocate_all b ls).1.current_cursor (allocate_all b ls).0) cursor
                ih.0,
          ),
          ih.1,
          ih.2 ∙ ap (λ m. m.arena_start) f.2,
          ih.3 ∙ ap (λ m. m.arena_end) f.2,
        )
]

-- `reset` undoes any series of allocations: the arena is as new.
pub reset-allocate_all :
    (base bytes_capacity : ℕ) (ls : List Layout)
    → All (λ l. 0 < l.alignment) ls
    → reset (allocate_all (make base bytes_capacity) ls).1 ≡ make base bytes_capacity
unfolding reset make
reset-allocate_all base bytes_capacity ls h =
    let a : MemoryArena = record {
      arena_start = base;
      arena_end = base + bytes_capacity;
      current_cursor = base;
    } in
    let kept = allocate_all-Apart a ls (omega arith) h in ground arith
