-- ===== src/Arp/Eviction.antt =====
-- The eviction of the ARP cache (core-engine/src/network/arp.cpp) drops the entry at the end.
use network_simulator_platfo.Common.{
  suc, ◌≤◌, ◌≡◌, refl, ◌∙◌, sym, ap, subst, Bool, true, false, Option, none, some, [], ◌∷◌, arith,
  length, if◌then◌else◌,
}
use network_simulator_platfo.Common.Words.{Bytes}
use network_simulator_platfo.Common.Map.{find, erase, bytes_key, bytes_eq, bytes_eq_iff, find-erase}
use network_simulator_platfo.Common.Entries.{IsDistinct, length-erase}
use network_simulator_platfo.Arp.Recency.{Entries, nodes_of, IsNumbered, IsShown}
use network_simulator_platfo.Arp.{ArpCache, CacheNode, back, pop_back, evict}
use network_simulator_platfo.Arp.Cache.{erase-IsShown}

abbrev pub last_of : Bytes × CacheNode → Entries → Bytes × CacheNode
last_of x [] = x
last_of x (y ∷ l) = last_of y l

-- The entries without the one that was used least recently.
abbrev pub drop_last : Entries → Entries
drop_last [] = []
drop_last (x ∷ []) = []
drop_last (x ∷ y ∷ l) = x ∷ drop_last (y ∷ l)

back-nodes_of :
    (x : Bytes × CacheNode) (l : Entries) → back (nodes_of (x ∷ l)) ≡ some (last_of x l).0
unfolding back
back-nodes_of x [] = refl
back-nodes_of x (y ∷ l) = back-nodes_of y l

pop_back-nodes_of : (l : Entries) → pop_back (nodes_of l) ≡ nodes_of (drop_last l)
unfolding pop_back
pop_back-nodes_of [] = refl
pop_back-nodes_of (x ∷ []) = refl
pop_back-nodes_of ((k, n) ∷ y ∷ l) = ap (◌∷◌ (n.list_position, k)) (pop_back-nodes_of (y ∷ l))

find-last_of :
    (x : Bytes × CacheNode) (l : Entries)
    → IsDistinct (x ∷ l)
    → find (last_of x l).0 (x ∷ l) ≡ some (last_of x l).1
unfolding find
find-last_of (k, n) [] d = ground (arith, bytes_eq_iff k k)
find-last_of (k, n) (y ∷ l) d = ground (arith, find-last_of y l d.1, bytes_eq_iff k (last_of y l).0)

erase-last_of :
    (x : Bytes × CacheNode) (l : Entries)
    → IsDistinct (x ∷ l)
    → drop_last (x ∷ l) ≡ erase (last_of x l).0 (x ∷ l)
unfolding erase find
erase-last_of (k, n) [] d = ground (arith, bytes_eq_iff k k)
erase-last_of (k, n) (y ∷ l) d =
    ground (arith, erase-last_of y l d.1, find-last_of y l d.1, bytes_eq_iff k (last_of y l).0)

pub evicted :
    (c : ArpCache) (x : Bytes × CacheNode) (l : Entries)
    → IsShown c (x ∷ l)
    → IsShown
        (record c {
          usage_list = pop_back c.usage_list;
          cache_map = erase (last_of x l).0 c.cache_map;
        })
        (drop_last (x ∷ l))
evicted c x l s =
    let r =
      erase-IsShown c (x ∷ l) (last_of x l).0 (last_of x l).1 s (find-last_of x l s.distinct) in
    let e = sym (erase-last_of x l s.distinct) in
    record {
      order = ap pop_back s.order ∙ pop_back-nodes_of (x ∷ l);
      same = λ k. r.same k ∙ ap (find k) e;
      distinct = subst IsDistinct e r.distinct;
      map_distinct = r.map_distinct;
      sizes = r.sizes ∙ ap length e;
      bound = subst (λ m. length m ≤ c.capacity_limit) e r.bound;
      positive = s.positive;
      numbered = subst (IsNumbered c.next_node) e r.numbered;
    }

pub evict-last_of :
    (c : ArpCache) (x : Bytes × CacheNode) (l : Entries)
    → IsShown c (x ∷ l)
    → evict c
      ≡ some (record c {
        usage_list = pop_back c.usage_list;
        cache_map = erase (last_of x l).0 c.cache_map;
      })
unfolding evict
evict-last_of c x l s = rw (ap back s.order ∙ back-nodes_of x l, evict)

pub not_last :
    (x : Bytes × CacheNode) (l : Entries) (ip : Bytes)
    → IsDistinct (x ∷ l)
    → find ip (x ∷ l) ≡ none
    → find ip (drop_last (x ∷ l)) ≡ none
not_last x l ip d h =
    ap (find ip) (erase-last_of x l d)
    ∙ find-erase (last_of x l).0 ip (x ∷ l)
    ∙ rw h ((same_branch (bytes_eq (last_of x l).0 ip)))
  where
    same_branch : (b : Bool) → ◌≡◌ {A = Option CacheNode} (if b then none else none) none
    same_branch true = refl
    same_branch false = refl

pub shorter :
    (x : Bytes × CacheNode) (l : Entries)
    → IsDistinct (x ∷ l)
    → suc (length (drop_last (x ∷ l))) ≡ length (x ∷ l)
shorter x l d =
    ap (λ m. suc (length m)) (erase-last_of x l d)
    ∙ length-erase (last_of x l).0 (x ∷ l) (last_of x l).1 d (find-last_of x l d)
