-- ===== src/Arp/Tests.antt =====
-- Runs of the ARP cache (core-engine/src/network/arp.cpp) on concrete inputs.
use network_simulator_platfo.Common.{◌≡◌, refl, true, false, some, List, [], ◌∷◌, arith}
use network_simulator_platfo.Common.Map.{find, erase, bytes_key}
use network_simulator_platfo.Arp.{ArpCache, make}
use network_simulator_platfo.Arp.Runs.{
  Request, look_up, store, remove, answered, stored, removed, run, lru_run, run-lru,
}

-- Two addresses, of which the first is used again, so that the third drops the second.
abbrev calls : List Request
calls =
    store (1 ∷ []) (10 ∷ [])
    ∷ store (2 ∷ []) (20 ∷ [])
    ∷ look_up (1 ∷ [])
    ∷ store (3 ∷ []) (30 ∷ [])
    ∷ look_up (2 ∷ [])
    ∷ remove (1 ∷ [])
    ∷ []

run-lru_example : (c : ArpCache) × (make 2 ≡ some c) × (run c calls ≡ some (lru_run 2 [] calls))
run-lru_example = run-lru 2 calls (omega arith)

-- The answers of the reference.
lru_answers :
    lru_run 2 [] calls
    ≡ stored ∷ stored ∷ answered (true, 10 ∷ []) ∷ stored ∷ answered (false, []) ∷ removed true ∷ []
unfolding find erase
lru_answers = refl
