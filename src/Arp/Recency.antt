-- ===== src/Arp/Recency.antt =====
-- The ARP cache (core-engine/src/network/arp.cpp) keeps its entries in the order of their last use.
use network_simulator_platfo.Common.{ℕ, ◌≤◌, ◌<◌, ◌≡◌, ◌≢◌, some, List, [], ◌∷◌, arith, length}
use network_simulator_platfo.Common.Words.{Bytes}
use network_simulator_platfo.Common.Map.{Map, find, erase, bytes_key, bytes_eq_iff}
use network_simulator_platfo.Common.Entries.{IsDistinct, erase-missing}
use network_simulator_platfo.Arp.{ArpCache, CacheNode, erase_at, node_at}

abbrev pub Entries : Type 0
Entries = Map Bytes CacheNode

-- The list nodes of the entries.
abbrev pub nodes_of : Entries → List (ℕ × Bytes)
nodes_of [] = []
nodes_of ((k, n) ∷ l) = (n.list_position, k) ∷ nodes_of l

abbrev pub Elsewhere : ℕ → Entries → Type 0
Elsewhere p [] = Unit {0}
Elsewhere p ((k, n) ∷ l) = (n.list_position ≢ p) × Elsewhere p l

-- The positions are below a number, and each belongs to one entry.
abbrev pub IsNumbered : ℕ → Entries → Type 0
IsNumbered next [] = Unit {0}
IsNumbered next ((k, n) ∷ l) =
    (n.list_position < next) × (Elsewhere n.list_position l × IsNumbered next l)

-- The cache holds the entries, the one that was used last in front.
pub record IsShown (c : ArpCache) (l : Entries) : Type 0 where
  pub order : c.usage_list ≡ nodes_of l
  pub same : (k : Bytes) → find k c.cache_map ≡ find k l
  pub distinct : IsDistinct l
  pub map_distinct : IsDistinct c.cache_map
  pub sizes : length c.cache_map ≡ length l
  pub bound : length l ≤ c.capacity_limit
  pub positive : 0 < c.capacity_limit
  pub numbered : IsNumbered c.next_node l

Elsewhere-find :
    (p : ℕ) (k : Bytes) (n : CacheNode) (l : Entries)
    → Elsewhere p l
    → find k l ≡ some n
    → n.list_position ≢ p
unfolding find
Elsewhere-find p k n [] a h = cc
Elsewhere-find p k n ((j, m) ∷ l) a h = ground (arith, Elsewhere-find p k n l)

Elsewhere-erase : (p : ℕ) (k : Bytes) (l : Entries) → Elsewhere p l → Elsewhere p (erase k l)
unfolding erase
Elsewhere-erase p k [] a = tt
Elsewhere-erase p k ((j, m) ∷ l) a = ground (arith, Elsewhere-erase p k l)

pub IsNumbered-erase :
    (next : ℕ) (k : Bytes) (l : Entries) → IsNumbered next l → IsNumbered next (erase k l)
unfolding erase
IsNumbered-erase next k [] a = tt
IsNumbered-erase next k ((j, m) ∷ l) a =
    ground (arith, IsNumbered-erase next k l, Elsewhere-erase m.list_position k l)

-- Without its entry a position is free.
pub position_free :
    (next : ℕ) (k : Bytes) (n : CacheNode) (l : Entries)
    → IsNumbered next l
    → IsDistinct l
    → find k l ≡ some n
    → Elsewhere n.list_position (erase k l)
unfolding find erase
position_free next k n [] a d h = tt
position_free next k n ((j, m) ∷ l) a d h = ground (
  arith,
  position_free next k n l,
  Elsewhere-find m.list_position k n l,
  erase-missing k l,
  bytes_eq_iff j k,
)

pub erase_at-nodes_of :
    (next : ℕ) (k : Bytes) (n : CacheNode) (l : Entries)
    → IsNumbered next l
    → IsDistinct l
    → find k l ≡ some n
    → erase_at n.list_position (nodes_of l) ≡ nodes_of (erase k l)
unfolding find erase erase_at
erase_at-nodes_of next k n [] a d h = cc
erase_at-nodes_of next k n ((j, m) ∷ l) a d h = ground (
  arith,
  erase_at-nodes_of next k n l,
  Elsewhere-find m.list_position k n l,
  erase-missing k l,
  bytes_eq_iff j k,
)

pub node_at-nodes_of :
    (next : ℕ) (k : Bytes) (n : CacheNode) (l : Entries) (rest : List (ℕ × Bytes))
    → IsNumbered next l
    → find k l ≡ some n
    → node_at n.list_position (nodes_of l) rest ≡ (n.list_position, k) ∷ rest
unfolding find node_at
node_at-nodes_of next k n [] rest a h = cc
node_at-nodes_of next k n ((j, m) ∷ l) rest a h = ground (
  arith,
  node_at-nodes_of next k n l rest,
  Elsewhere-find m.list_position k n l,
  bytes_eq_iff j k,
)
