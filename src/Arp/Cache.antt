-- ===== src/Arp/Cache.antt =====
-- Each call of the ARP cache (core-engine/src/network/arp.cpp) is the call on the entries in the
-- order of their last use.
use network_simulator_platfo.Common.{
  ℕ, suc, ◌+◌, ◌<◌, ◌≡◌, ◌∙◌, sym, ap, none, some, [], ◌∷◌, arith, length, if◌then◌else◌,
}
use network_simulator_platfo.Common.Words.{Bytes}
use network_simulator_platfo.Common.Map.{
  Map, find, erase, bytes_key, bytes_eq, bytes_eq_iff, find-assign, find-erase,
}
use network_simulator_platfo.Common.Entries.{
  IsDistinct, erase-IsDistinct, length-erase, assign-IsDistinct, length-assign_new,
}
use network_simulator_platfo.Arp.Recency.{
  Entries, nodes_of, IsNumbered, Elsewhere, IsShown, IsNumbered-erase, position_free,
  erase_at-nodes_of, node_at-nodes_of,
}
use network_simulator_platfo.Arp.{ArpCache, CacheNode, erase_at, splice_front, insert}

-- The entries after the use of one.
abbrev pub used : Bytes → CacheNode → Entries → Entries
used ip n l = (ip, n) ∷ erase ip l

splice_front-nodes_of :
    (next : ℕ) (k : Bytes) (n : CacheNode) (l : Entries)
    → IsNumbered next l
    → IsDistinct l
    → find k l ≡ some n
    → splice_front n.list_position (nodes_of l) ≡ (n.list_position, k) ∷ nodes_of (erase k l)
unfolding splice_front
splice_front-nodes_of next k n l a d h =
    node_at-nodes_of next k n l (erase_at n.list_position (nodes_of l)) a h
    ∙ ap (◌∷◌ (n.list_position, k)) (erase_at-nodes_of next k n l a d h)

find-IsNumbered :
    (next : ℕ) (k : Bytes) (n : CacheNode) (l : Entries)
    → IsNumbered next l
    → find k l ≡ some n
    → n.list_position < next
unfolding find
find-IsNumbered next k n [] a h = cc
find-IsNumbered next k n ((j, m) ∷ l) a h = ground (arith, find-IsNumbered next k n l)

-- A hit: the node goes to the front, and the map has the new address.
pub hit-IsShown :
    (c : ArpCache) (l : Entries) (ip mac : Bytes) (n : CacheNode) (m : Map Bytes CacheNode)
    → IsShown c l
    → find ip l ≡ some n
    → ((k : Bytes)
        → find k m
          ≡ (if bytes_eq ip k then some (record n { mac_address = mac }) else find k c.cache_map))
    → IsDistinct m
    → length m ≡ length c.cache_map
    → IsShown
        (record c { usage_list = splice_front n.list_position c.usage_list; cache_map = m })
        (used ip (record n { mac_address = mac }) l)
unfolding find
hit-IsShown c l ip mac n m s h found d size = record {
  order =
      ap (splice_front n.list_position) s.order
      ∙ splice_front-nodes_of c.next_node ip n l s.numbered s.distinct h;
  same = λ k. found k ∙ ground (arith, s.same k, find-erase ip k l);
  distinct =
      (ground (arith, find-erase ip ip l, bytes_eq_iff ip ip), erase-IsDistinct ip l s.distinct);
  map_distinct = d;
  sizes = omega (arith, size, s.sizes, length-erase ip l n s.distinct h);
  bound = omega (arith, s.bound, length-erase ip l n s.distinct h);
  positive = s.positive;
  numbered = (
    find-IsNumbered c.next_node ip n l s.numbered h,
    (
      position_free c.next_node ip n l s.numbered s.distinct h,
      IsNumbered-erase c.next_node ip l s.numbered,
    ),
  );
}

-- A miss: a new node in front.
pub insert-IsShown :
    (c : ArpCache) (l : Entries) (ip mac : Bytes)
    → IsShown c l
    → find ip l ≡ none
    → length l < c.capacity_limit
    → IsShown
        (insert c ip mac)
        ((ip, record { mac_address = mac; list_position = c.next_node }) ∷ l)
unfolding insert find
insert-IsShown c l ip mac s h free = record {
  order = ap (◌∷◌ (c.next_node, ip)) s.order;
  same = λ k.
      find-assign ip k (record { mac_address = mac; list_position = c.next_node }) c.cache_map
      ∙ ground (arith, s.same k);
  distinct = (h, s.distinct);
  map_distinct =
      assign-IsDistinct ip (record { mac_address = mac; list_position = c.next_node }) c.cache_map
        s.map_distinct;
  sizes =
      length-assign_new ip (record { mac_address = mac; list_position = c.next_node }) c.cache_map
        (s.same ip ∙ h)
      ∙ ap suc s.sizes;
  bound = omega arith;
  positive = s.positive;
  numbered = (omega arith, (unused c.next_node l s.numbered, raised c.next_node l s.numbered));
}
  where
    unused : (next : ℕ) (l : Entries) → IsNumbered next l → Elsewhere next l
    unused next [] a = tt
    unused next ((k, n) ∷ l) a = ((λ e. omega arith), unused next l a.1.1)

    raised : (next : ℕ) (l : Entries) → IsNumbered next l → IsNumbered (next + 1) l
    raised next [] a = tt
    raised next ((k, n) ∷ l) a = (omega arith, (a.1.0, raised next l a.1.1))

-- The removal of an entry.
pub erase-IsShown :
    (c : ArpCache) (l : Entries) (ip : Bytes) (n : CacheNode)
    → IsShown c l
    → find ip l ≡ some n
    → IsShown
        (record c {
          usage_list = erase_at n.list_position c.usage_list;
          cache_map = erase ip c.cache_map;
        })
        (erase ip l)
erase-IsShown c l ip n s h =
    let fewer = length-erase ip l n s.distinct h in
    let map_fewer = length-erase ip c.cache_map n s.map_distinct (s.same ip ∙ h) in
    record {
      order =
          ap (erase_at n.list_position) s.order
          ∙ erase_at-nodes_of c.next_node ip n l s.numbered s.distinct h;
      same = λ k.
          find-erase ip k c.cache_map
          ∙ ap (λ o. if bytes_eq ip k then none else o) (s.same k)
          ∙ sym (find-erase ip k l);
      distinct = erase-IsDistinct ip l s.distinct;
      map_distinct = erase-IsDistinct ip c.cache_map s.map_distinct;
      sizes = omega (arith, fewer, map_fewer, s.sizes);
      bound = omega (arith, fewer, s.bound);
      positive = s.positive;
      numbered = IsNumbered-erase c.next_node ip l s.numbered;
    }
