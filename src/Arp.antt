-- ===== src/Arp.antt =====
-- The ARP cache: core-engine/include/network/arp.hpp and core-engine/src/network/arp.cpp. The nodes of
-- `usage_list` are numbered as they are made, and an iterator into the list is a node's number.
pub mod Recency
pub mod Cache
pub mod Eviction
pub mod Calls
pub mod Runs
mod Tests
use network_simulator_platfo.Common.{
  ℕ, ◌+◌, Bool, true, false, Option, none, some, List, [], ◌∷◌, length, leb, ◌==◌, if◌then◌else◌,
}
use network_simulator_platfo.Common.Words.{Bytes}
use network_simulator_platfo.Common.Map.{Map, find, assign, erase, bytes_key}

pub record CacheNode : Type 0 where
  pub mac_address : Bytes
  pub list_position : ℕ

pub record ArpCache : Type 0 where
  pub capacity_limit : ℕ
  pub usage_list : List (ℕ × Bytes)
  pub cache_map : Map Bytes CacheNode
  -- the number of the next node of `usage_list`
  pub next_node : ℕ

-- `ArpCache(max_capacity)`; `none` is the exception.
unfoldable pub make : ℕ → Option ArpCache
make max_capacity =
    if max_capacity == 0
    then none
    else some
        (record { capacity_limit = max_capacity; usage_list = []; cache_map = []; next_node = 0 })

-- `usage_list.erase(position)`
unfoldable pub erase_at : ℕ → List (ℕ × Bytes) → List (ℕ × Bytes)
erase_at position [] = []
erase_at position ((n, ip) ∷ nodes) =
    if n == position then nodes else (n, ip) ∷ erase_at position nodes

-- The nodes at a position: one, or none.
unfoldable pub node_at : ℕ → List (ℕ × Bytes) → List (ℕ × Bytes) → List (ℕ × Bytes)
node_at position [] rest = rest
node_at position ((n, ip) ∷ nodes) rest =
    if n == position then (n, ip) ∷ rest else node_at position nodes rest

-- `usage_list.splice(usage_list.begin(), usage_list, position)`
unfoldable pub splice_front : ℕ → List (ℕ × Bytes) → List (ℕ × Bytes)
splice_front position nodes = node_at position nodes (erase_at position nodes)

-- `usage_list.back()`; undefined on an empty list.
unfoldable pub back : List (ℕ × Bytes) → Option Bytes
back [] = none
back ((n, ip) ∷ []) = some ip
back (node ∷ next ∷ nodes) = back (next ∷ nodes)

-- `usage_list.pop_back()`
unfoldable pub pop_back : List (ℕ × Bytes) → List (ℕ × Bytes)
pop_back [] = []
pop_back (node ∷ []) = []
pop_back (node ∷ next ∷ nodes) = node ∷ pop_back (next ∷ nodes)

-- `get`
unfoldable pub get : ArpCache → Bytes → ArpCache × (Bool × Bytes)
get c ip = elim (find ip c.cache_map) [
  | none ↦ (c, (false, []))
  | some node ↦ (
    record c { usage_list = splice_front node.list_position c.usage_list },
    (true, node.mac_address),
  )
]

-- A new entry behind the eviction.
unfoldable pub insert : ArpCache → Bytes → Bytes → ArpCache
insert c ip mac = record c {
  usage_list = (c.next_node, ip) ∷ c.usage_list;
  cache_map = assign ip (record { mac_address = mac; list_position = c.next_node }) c.cache_map;
  next_node = c.next_node + 1;
}

-- The eviction of the entry at the back.
unfoldable pub evict : ArpCache → Option ArpCache
evict c = elim (back c.usage_list) [
  | none ↦ none
  | some eviction_target_key ↦ some (record c {
    usage_list = pop_back c.usage_list;
    cache_map = erase eviction_target_key c.cache_map;
  })
]

-- `put`; `none` where it is undefined.
unfoldable pub put : ArpCache → Bytes → Bytes → Option ArpCache
put c ip mac = elim (find ip c.cache_map) [
  | some node ↦ some (record c {
    cache_map = assign ip (record node { mac_address = mac }) c.cache_map;
    usage_list = splice_front node.list_position c.usage_list;
  })
  | none ↦
      if leb c.capacity_limit (length c.cache_map)
      then elim (evict c) [ none ↦ none | some evicted ↦ some (insert evicted ip mac) ]
      else some (insert c ip mac)
]

-- `invalidate`
unfoldable pub invalidate : ArpCache → Bytes → ArpCache × Bool
invalidate c ip = elim (find ip c.cache_map) [
  | none ↦ (c, false)
  | some node ↦ (
    record c {
      usage_list = erase_at node.list_position c.usage_list;
      cache_map = erase ip c.cache_map;
    },
    true,
  )
]
