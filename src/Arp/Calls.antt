-- ===== src/Arp/Calls.antt =====
-- The calls of the ARP cache (core-engine/src/network/arp.cpp) on the entries in the order of
-- their last use, the least recent at the end.
use network_simulator_platfo.Common.{
  ℕ, ◌≡◌, ◌⊎◌, refl, ◌∙◌, sym, ap, subst, Bool, true, false, Option, none, some, [], ◌∷◌, arith,
  length, leb, ◌==◌, if◌then◌else◌, Bool-cases, Option-cases, inl, inr,
}
use network_simulator_platfo.Common.Words.{Bytes}
use network_simulator_platfo.Common.Map.{
  find, assign, erase, bytes_key, bytes_eq, bytes_eq_iff, find-assign,
}
use network_simulator_platfo.Common.Entries.{erase-missing, assign-IsDistinct, length-assign_old}
use network_simulator_platfo.Arp.Recency.{Entries, IsShown}
use network_simulator_platfo.Arp.{
  ArpCache, CacheNode, splice_front, pop_back, get, insert, put, invalidate,
}
use network_simulator_platfo.Arp.Cache.{used, hit-IsShown, insert-IsShown, erase-IsShown}
use network_simulator_platfo.Arp.{make}
use network_simulator_platfo.Arp.Eviction.{
  last_of, drop_last, evicted, evict-last_of, not_last, shorter,
}

-- What `get` answers, and the entries behind it.
abbrev pub answer : Option CacheNode → Bool × Bytes
answer none = (false, [])
answer (some n) = (true, n.mac_address)

abbrev pub after_get : Option CacheNode → Bytes → Entries → Entries
after_get none ip l = l
after_get (some n) ip l = used ip n l

-- The entries behind `put`, with the position that a new one has.
abbrev pub after_put : Option CacheNode → ℕ → ℕ → Bytes → Bytes → Entries → Entries
after_put (some n) capacity next ip mac l = used ip (record n { mac_address = mac }) l
after_put none capacity next ip mac l =
    (ip, record { mac_address = mac; list_position = next })
    ∷ (if leb capacity (length l) then drop_last l else l)

-- `get` answers with the address that the entry of its key has, or with nothing where there is none,
-- and makes that entry the one that was used last; the others keep their order.
pub get-IsShown :
    (c : ArpCache) (l : Entries) (ip : Bytes)
    → IsShown c l
    → IsShown (get c ip).0 (after_get (find ip l) ip l) × ((get c ip).1 ≡ answer (find ip l))
unfolding get
get-IsShown c l ip s = elim (Option-cases (find ip l)) [
  | inl missing ↦ rw (s.same ip, missing, get) (s, refl)
  | inr (n, found) ↦
      rw (s.same ip, found, get)
        (
          hit-IsShown c l ip n.mac_address n c.cache_map s found (kept_or n found) s.map_distinct
              refl,
          refl,
        )
]
  where
    kept_or :
        (n : CacheNode)
        → find ip l ≡ some n
        → (k : Bytes) → find k c.cache_map ≡ (if bytes_eq ip k then some n else find k c.cache_map)
    kept_or n found k = elim (Bool-cases (bytes_eq ip k)) [
      | inl e ↦
          rw e (ap (λ j. find j c.cache_map) (sym ((bytes_eq_iff ip k).0 e)) ∙ s.same ip ∙ found)
      | inr e ↦ rw e refl
    ]

put_full :
    (c : ArpCache) (l : Entries) (ip mac : Bytes)
    → IsShown c l
    → find ip l ≡ none
    → leb c.capacity_limit (length l) ≡ true
    → (e : ArpCache) × (put c ip mac ≡ some e)
      × IsShown e (after_put (find ip l) c.capacity_limit c.next_node ip mac l)
unfolding put
put_full c [] ip mac s missing full = absurd (ground (arith, s.positive))
put_full c (x ∷ l) ip mac s missing full =
    let d = record c {
      usage_list = pop_back c.usage_list;
      cache_map = erase (last_of x l).0 c.cache_map;
    } in
    (
      insert d ip mac,
      rw (s.same ip, missing, s.sizes, full, evict-last_of c x l s, put),
      rw (missing, full)
          (insert-IsShown d (drop_last (x ∷ l)) ip mac (evicted c x l s)
            (not_last x l ip s.distinct missing) (omega (arith, shorter x l s.distinct, s.bound))),
    )

-- `put` is never undefined. It makes the entry of its key, with the new address, the one that was
-- used last; for a new key in a full cache it drops the entry that was used least recently, and no
-- other.
pub put-IsShown :
    (c : ArpCache) (l : Entries) (ip mac : Bytes)
    → IsShown c l
    → (e : ArpCache) × (put c ip mac ≡ some e)
      × IsShown e (after_put (find ip l) c.capacity_limit c.next_node ip mac l)
unfolding put
put-IsShown c l ip mac s = elim (Option-cases (find ip l)) [
  | inl missing ↦ elim (Bool-cases (leb c.capacity_limit (length l))) [
    | inl full ↦ put_full c l ip mac s missing full
    | inr free ↦ (
      insert c ip mac,
      rw (s.same ip, missing, s.sizes, free, put),
      rw (missing, free) (insert-IsShown c l ip mac s missing (ground arith)),
    )
  ]
  | inr (n, found) ↦
      let m = assign ip (record n { mac_address = mac }) c.cache_map in
      (
        record c { cache_map = m; usage_list = splice_front n.list_position c.usage_list },
        rw (s.same ip, found, put),
        rw found (
            hit-IsShown c l ip mac n m s found
              (λ k. find-assign ip k (record n { mac_address = mac }) c.cache_map)
              (assign-IsDistinct ip (record n { mac_address = mac }) c.cache_map s.map_distinct)
              (length-assign_old ip (record n { mac_address = mac }) n c.cache_map
                (s.same ip ∙ found))),
      )
]

abbrev pub is_some : Option CacheNode → Bool
is_some none = false
is_some (some n) = true

-- `invalidate` removes the entry of its key and no other, and returns whether there was one.
pub invalidate-IsShown :
    (c : ArpCache) (l : Entries) (ip : Bytes)
    → IsShown c l
    → IsShown (invalidate c ip).0 (erase ip l) × ((invalidate c ip).1 ≡ is_some (find ip l))
unfolding invalidate
invalidate-IsShown c l ip s = elim (Option-cases (find ip l)) [
  | inl missing ↦
      rw (s.same ip, missing, invalidate)
        (subst (IsShown c) (sym (erase-missing ip l missing)) s, refl)
  | inr (n, found) ↦ rw (s.same ip, found, invalidate) (erase-IsShown c l ip n s found, refl)
]

-- A new cache has no entries, and a capacity of 0 is refused.
pub make-IsShown :
    (max_capacity : ℕ)
    → ((make max_capacity ≡ none) × (max_capacity ≡ 0))
      ⊎ ((c : ArpCache) × (make max_capacity ≡ some c) × IsShown c [])
unfolding make
make-IsShown max_capacity = elim (Bool-cases (max_capacity == 0)) [
  | inl e ↦ inl (rw (e, make), ground arith)
  | inr e ↦ inr (
    record { capacity_limit = max_capacity; usage_list = []; cache_map = []; next_node = 0 },
    rw (e, make),
    record {
      order = refl;
      same = λ k. refl;
      distinct = tt;
      map_distinct = tt;
      sizes = refl;
      bound = omega arith;
      positive = ground arith;
      numbered = tt;
    },
  )
]
