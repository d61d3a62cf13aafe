-- ===== src/Arp/Runs.antt =====
-- Any series of calls of the ARP cache (core-engine/src/network/arp.cpp) against a list of addresses in the
-- order of their last use.
use network_simulator_platfo.Common.{
  ℕ, suc, ◌<◌, ◌≡◌, inl, inr, refl, ◌∙◌, sym, ap, Bool, true, false, Option, none, some, List, [],
  ◌∷◌, arith, length, leb, if◌then◌else◌, Bool-cases, Option-cases,
}
use mathlib.Core.Path.{ap₂}
use network_simulator_platfo.Common.Words.{Bytes}
use network_simulator_platfo.Common.Map.{Map, find, erase, bytes_key, bytes_eq}
use network_simulator_platfo.Arp.{ArpCache, CacheNode, make, get, put, evict, insert, invalidate}
use network_simulator_platfo.Arp.Recency.{Entries, IsShown}
use network_simulator_platfo.Arp.Eviction.{drop_last}
use network_simulator_platfo.Arp.Calls.{
  answer, after_get, after_put, is_some, get-IsShown, put-IsShown, invalidate-IsShown, make-IsShown,
}

pub data Request : Type 0 where
  look_up : Bytes → Request
  store : Bytes → Bytes → Request
  remove : Bytes → Request

pub data Reply : Type 0 where
  answered : Bool × Bytes → Reply
  stored : Reply
  removed : Bool → Reply

-- The calls of the code, one after the other; none where one is undefined.
abbrev pub stored_in : Option ArpCache → Option (ArpCache × Reply)
stored_in none = none
stored_in (some c) = some (c, Reply.stored)

unfoldable pub call : ArpCache → Request → Option (ArpCache × Reply)
call c (Request.look_up ip) = let (c', found) = get c ip in some (c', Reply.answered found)
call c (Request.store ip mac) = stored_in (put c ip mac)
call c (Request.remove ip) = let (c', b) = invalidate c ip in some (c', Reply.removed b)

abbrev pub with_reply : Reply → Option (List Reply) → Option (List Reply)
with_reply r none = none
with_reply r (some rs) = some (r ∷ rs)

unfoldable pub run : ArpCache → List Request → Option (List Reply)
run c [] = some []
run c (r ∷ rs) = elim (call c r) [ none ↦ none | some (c', reply) ↦ with_reply reply (run c' rs) ]

-- The reference: the addresses that were used last in front, and at most `capacity` of them.
abbrev pub Lru : Type 0
Lru = Map Bytes Bytes

abbrev pub drop_oldest : Lru → Lru
drop_oldest [] = []
drop_oldest (x ∷ []) = []
drop_oldest (x ∷ y ∷ l) = x ∷ drop_oldest (y ∷ l)

abbrev pub lru_found : Lru → Bytes → Option Bytes → Lru × Reply
lru_found l ip none = (l, Reply.answered (false, []))
lru_found l ip (some mac) = ((ip, mac) ∷ erase ip l, Reply.answered (true, mac))

abbrev pub lru_stored : ℕ → Lru → Bytes → Bytes → Option Bytes → Lru × Reply
lru_stored capacity l ip mac (some old) = ((ip, mac) ∷ erase ip l, Reply.stored)
lru_stored capacity l ip mac none =
    ((ip, mac) ∷ (if leb capacity (length l) then drop_oldest l else l), Reply.stored)

abbrev pub has : Option Bytes → Bool
has none = false
has (some mac) = true

abbrev pub lru_call : ℕ → Lru → Request → Lru × Reply
lru_call capacity l (Request.look_up ip) = lru_found l ip (find ip l)
lru_call capacity l (Request.store ip mac) = lru_stored capacity l ip mac (find ip l)
lru_call capacity l (Request.remove ip) = (erase ip l, Reply.removed (has (find ip l)))

abbrev pub lru_run : ℕ → Lru → List Request → List Reply
lru_run capacity l [] = []
lru_run capacity l (r ∷ rs) =
    let (l', reply) = lru_call capacity l r in reply ∷ lru_run capacity l' rs

-- The addresses of the entries.
abbrev contents : Entries → Lru
contents [] = []
contents ((ip, n) ∷ l) = (ip, n.mac_address) ∷ contents l

abbrev mac_of : Option CacheNode → Option Bytes
mac_of none = none
mac_of (some n) = some n.mac_address

find-contents : (ip : Bytes) (l : Entries) → find ip (contents l) ≡ mac_of (find ip l)
unfolding find
find-contents ip [] = refl
find-contents ip ((k, n) ∷ l) = elim (Bool-cases (bytes_eq k ip)) [
  | inl e ↦ rw e refl
  | inr e ↦ rw e (find-contents ip l)
]

erase-contents : (ip : Bytes) (l : Entries) → erase ip (contents l) ≡ contents (erase ip l)
unfolding erase
erase-contents ip [] = refl
erase-contents ip ((k, n) ∷ l) = elim (Bool-cases (bytes_eq k ip)) [
  | inl e ↦ rw e (erase-contents ip l)
  | inr e ↦ rw e (ap (◌∷◌ (k, n.mac_address)) (erase-contents ip l))
]

drop_oldest-contents : (l : Entries) → drop_oldest (contents l) ≡ contents (drop_last l)
drop_oldest-contents [] = refl
drop_oldest-contents (x ∷ []) = refl
drop_oldest-contents ((k, n) ∷ y ∷ l) = ap (◌∷◌ (k, n.mac_address)) (drop_oldest-contents (y ∷ l))

length-contents : (l : Entries) → length (contents l) ≡ length l
length-contents [] = refl
length-contents (x ∷ l) = ap suc (length-contents l)

-- A call is answered as the reference answers it.
abbrev Simulated : ArpCache → Entries → Request → Type 0
Simulated c l r =
    (c' : ArpCache) × (l' : Entries) × (call c r
      ≡ some (c', (lru_call c.capacity_limit (contents l) r).1))
    × IsShown c' l'
    × (contents l' ≡ (lru_call c.capacity_limit (contents l) r).0)
    × (c'.capacity_limit ≡ c.capacity_limit)

get-capacity : (c : ArpCache) (ip : Bytes) → (get c ip).0.capacity_limit ≡ c.capacity_limit
unfolding get
get-capacity c ip = elim (Option-cases (find ip c.cache_map)) [
  | inl e ↦ rw (e, get) refl
  | inr (n, e) ↦ rw (e, get) refl
]

invalidate-capacity :
    (c : ArpCache) (ip : Bytes) → (invalidate c ip).0.capacity_limit ≡ c.capacity_limit
unfolding invalidate
invalidate-capacity c ip = elim (Option-cases (find ip c.cache_map)) [
  | inl e ↦ rw (e, invalidate) refl
  | inr (n, e) ↦ rw (e, invalidate) refl
]

put-capacity :
    (c e : ArpCache) (ip mac : Bytes) → put c ip mac ≡ some e → e.capacity_limit ≡ c.capacity_limit
unfolding put evict insert
put-capacity c e ip mac h = ground (arith, h)

answer-mac_of :
    (ip : Bytes) (l : Entries) (found : Option CacheNode)
    → find ip l ≡ found
    → (contents (after_get found ip l) ≡ (lru_found (contents l) ip (mac_of found)).0)
      × (Reply.answered (answer found) ≡ (lru_found (contents l) ip (mac_of found)).1)
answer-mac_of ip l none e = (refl, refl)
answer-mac_of ip l (some n) e = (ap (◌∷◌ (ip, n.mac_address)) (sym (erase-contents ip l)), refl)

stored-mac_of :
    (capacity next : ℕ) (ip mac : Bytes) (l : Entries) (found : Option CacheNode)
    → (contents (after_put found capacity next ip mac l)
        ≡ (lru_stored capacity (contents l) ip mac (mac_of found)).0)
      × (Reply.stored ≡ (lru_stored capacity (contents l) ip mac (mac_of found)).1)
stored-mac_of capacity next ip mac l (some n) =
    (ap (◌∷◌ (ip, mac)) (sym (erase-contents ip l)), refl)
stored-mac_of capacity next ip mac l none = (
  ap (◌∷◌ (ip, mac)) (elim (Bool-cases (leb capacity (length l))) [
    | inl full ↦ rw (length-contents l, full) (sym (drop_oldest-contents l))
    | inr free ↦ rw (length-contents l, free) refl
  ]),
  refl,
)

has-mac_of : (found : Option CacheNode) → is_some found ≡ has (mac_of found)
has-mac_of none = refl
has-mac_of (some n) = refl

simulated : (c : ArpCache) (l : Entries) (r : Request) → IsShown c l → Simulated c l r
unfolding call
simulated c l (Request.look_up ip) s =
    let (shown, says) = get-IsShown c l ip s in
    let (after, reply) = answer-mac_of ip l (find ip l) refl in
    let at = sym (find-contents ip l) in
    (
      (get c ip).0,
      after_get (find ip l) ip l,
      ap (λ a. some ((get c ip).0, a))
          (ap Reply.answered says ∙ reply ∙ ap (λ f. (lru_found (contents l) ip f).1) at),
      shown,
      after ∙ ap (λ f. (lru_found (contents l) ip f).0) at,
      get-capacity c ip,
    )
simulated c l (Request.store ip mac) s =
    let (e, put_is, shown) = put-IsShown c l ip mac s in
    let (after, reply) = stored-mac_of c.capacity_limit c.next_node ip mac l (find ip l) in
    let at = sym (find-contents ip l) in
    (
      e,
      after_put (find ip l) c.capacity_limit c.next_node ip mac l,
      ap stored_in put_is
          ∙ ap (λ a. some (e, a))
              (reply ∙ ap (λ f. (lru_stored c.capacity_limit (contents l) ip mac f).1) at),
      shown,
      after ∙ ap (λ f. (lru_stored c.capacity_limit (contents l) ip mac f).0) at,
      put-capacity c e ip mac put_is,
    )
simulated c l (Request.remove ip) s =
    let (shown, says) = invalidate-IsShown c l ip s in
    (
      (invalidate c ip).0,
      erase ip l,
      ap (λ b. some ((invalidate c ip).0, Reply.removed b))
          (says ∙ has-mac_of (find ip l) ∙ ap has (sym (find-contents ip l))),
      shown,
      sym (erase-contents ip l),
      invalidate-capacity c ip,
    )

run-answers :
    (c : ArpCache) (l : Entries) (rs : List Request)
    → IsShown c l
    → run c rs ≡ some (lru_run c.capacity_limit (contents l) rs)
unfolding run
run-answers c l [] s = refl
run-answers c l (r ∷ rs) s =
    let (c', l', runs, shown, kept, capacity) = simulated c l r s in
    rw (runs, run)
      (ap (with_reply (lru_call c.capacity_limit (contents l) r).1)
        (run-answers c' l' rs shown ∙ ap some (ap₂ (λ k m. lru_run k m rs) capacity kept)))

made_with : (n : ℕ) (c : ArpCache) → make n ≡ some c → c.capacity_limit ≡ n
unfolding make
made_with n c e = ground (arith, e)

-- A new cache with a capacity above 0 answers any series of calls as a list of at most that many addresses
-- does, in which a store, and a look-up that finds its address, move it to the front, a new address drops
-- the one that was used least recently where the list is full, and a removal takes its address out; no
-- call is undefined.
pub run-lru :
    (max_capacity : ℕ) (rs : List Request)
    → 0 < max_capacity
    → (c : ArpCache) × (make max_capacity ≡ some c) × (run c rs ≡ some (lru_run max_capacity [] rs))
run-lru max_capacity rs positive = elim (make-IsShown max_capacity) [
  | inl (refused, zero_capacity) ↦ absurd (omega (arith, positive, zero_capacity))
  | inr (c, made, shown) ↦ (
    c,
    made,
    run-answers c [] rs shown ∙ ap (λ k. some (lru_run k [] rs)) (made_with max_capacity c made),
  )
]
