-- ===== src/Arena/Tests.antt =====
-- Runs of the arena (core-engine/include/core/memory_arena.hpp) on concrete inputs.
use network_simulator_platfo.Common.{◌+◌, ◌<◌, ◌≡◌, ◌↔◌, none, List, [], ◌∷◌, arith}
use network_simulator_platfo.Arena.{MemoryArena, Layout, allocate, allocate_all, round_up}
use network_simulator_platfo.Arena.Blocks.{IsValid, Apart, allocate_all-Apart, allocate_fits}

-- `Packet` is packed: 1506 bytes at any address.
abbrev packet_layout : Layout
packet_layout = record { size = 1506; alignment = 1 }

abbrev word_layout : Layout
word_layout = record { size = 8; alignment = 8 }

abbrev arena : MemoryArena
arena = record { arena_start = 1000; arena_end = 5000; current_cursor = 1001 }

arena-IsValid : IsValid arena
arena-IsValid = ground arith

abbrev layouts : List Layout
layouts = packet_layout ∷ word_layout ∷ packet_layout ∷ packet_layout ∷ []

allocate_all-Apart_example :
    let (blocks, c) = allocate_all arena layouts in
    Apart 1001 c.current_cursor blocks × IsValid c × (c.arena_start ≡ 1000) × (c.arena_end ≡ 5000)
allocate_all-Apart_example = allocate_all-Apart arena layouts arena-IsValid (ground arith)

allocate_fits_example : (allocate arena packet_layout ≡ none) ↔ (5000 < round_up 1 1001 + 1506)
allocate_fits_example = allocate_fits arena packet_layout arena-IsValid (omega arith)
