-- ===== src/Router/Lookup.antt =====
-- `lookup_route` (core-engine/src/network/router.cpp) finds the longest prefix that matches.
use native.Mathlib.Decide.{dec_lt}
use network_simulator_platfo.Common.{
  ℕ, ◌≤◌, ◌<◌, ◌≡◌, ◌⊎◌, inl, inr, refl, ◌∙◌, ap, true, false, List, [], ◌∷◌, ◌++◌, arith, All,
  Bool-cases,
}
use network_simulator_platfo.Addressing.{IPv4Address, to_prefix_length}
use network_simulator_platfo.Router.{
  RoutingTableEntry, Router, Best, matches, consider, consider_all, lookup_route,
}

abbrev prefix : RoutingTableEntry → ℕ
prefix e = to_prefix_length e.mask

abbrev chosen : RoutingTableEntry → Best
chosen e = record { route_found = true; best_next_hop = e.next_hop_id; longest_prefix = prefix e }

-- The entry does not match, or its prefix is shorter than n.
abbrev pub Shorter : ℕ → ℕ → RoutingTableEntry → Type 0
Shorter dest n e = (matches dest e ≡ false) ⊎ (prefix e < n)

-- The entry does not match, or its prefix is no longer than n.
abbrev pub NoLonger : ℕ → ℕ → RoutingTableEntry → Type 0
NoLonger dest n e = (matches dest e ≡ false) ⊎ (prefix e ≤ n)

-- An entry of the table that matches, the first of those with the longest prefix.
pub record IsLongest (dest : ℕ) (table : List RoutingTableEntry) (e : RoutingTableEntry)
    : Type 0 where
  pub before : List RoutingTableEntry
  pub after : List RoutingTableEntry
  pub place : table ≡ before ++ e ∷ after
  pub matching : matches dest e ≡ true
  pub first : All (Shorter dest (prefix e)) before
  pub longest : All (NoLonger dest (prefix e)) after

considered :
    (dest : ℕ) (best : Best) (x : RoutingTableEntry) (xs : List RoutingTableEntry) (b : Best)
    → consider dest best x ≡ b
    → consider_all dest best (x ∷ xs) ≡ consider_all dest b xs
unfolding consider_all
considered dest best x xs b e = ap (λ b. consider_all dest b xs) e

-- An entry that is put in front of the table and loses.
behind :
    {dest : ℕ} {xs : List RoutingTableEntry} {e : RoutingTableEntry} (x : RoutingTableEntry)
    → Shorter dest (prefix e) x
    → IsLongest dest xs e
    → IsLongest dest (x ∷ xs) e
behind x s l = record {
  before = x ∷ l.before;
  after = l.after;
  place = ap (◌∷◌ x) l.place;
  matching = l.matching;
  first = (s, l.first);
  longest = l.longest;
}

-- An entry stays the best, or the next one is longer.
next_chosen :
    (dest : ℕ) (c x : RoutingTableEntry)
    → ((consider dest (chosen c) x ≡ chosen c) × NoLonger dest (prefix c) x)
      ⊎ ((consider dest (chosen c) x ≡ chosen x) × (matches dest x ≡ true) × (prefix c < prefix x))
unfolding consider
next_chosen dest c x = elim (Bool-cases (matches dest x)) [
  | inr differs ↦ inl (ground arith, inl differs)
  | inl same ↦ elim (dec_lt (prefix c) (prefix x)) [
    | yes longer ↦ inr (ground arith, same, longer)
    | no short ↦ inl (ground arith, inr (omega arith))
  ]
]

Shorter-NoLonger :
    (dest m n : ℕ) (x : RoutingTableEntry) → NoLonger dest m x → m < n → Shorter dest n x
Shorter-NoLonger dest m n x (inl differs) h = inl differs
Shorter-NoLonger dest m n x (inr short) h = inr (omega arith)

-- What the loop makes of the best entry so far: it stays the best, or a longer one is found.
abbrev Outcome : ℕ → RoutingTableEntry → List RoutingTableEntry → Best → Type 0
Outcome dest c xs best =
    ((best ≡ chosen c) × All (NoLonger dest (prefix c)) xs)
    ⊎ ((e : RoutingTableEntry) × (best ≡ chosen e) × (prefix c < prefix e) × IsLongest dest xs e)

head_chosen :
    (dest : ℕ) (x : RoutingTableEntry) (xs : List RoutingTableEntry)
    → matches dest x ≡ true
    → All (NoLonger dest (prefix x)) xs
    → IsLongest dest (x ∷ xs) x
head_chosen dest x xs same rest = record {
  before = [];
  after = xs;
  place = refl;
  matching = same;
  first = tt;
  longest = rest;
}

from_chosen :
    (dest : ℕ) (c : RoutingTableEntry) (xs : List RoutingTableEntry)
    → Outcome dest c xs (consider_all dest (chosen c) xs)
unfolding consider_all
from_chosen dest c [] = inl (refl, tt)
from_chosen dest c (x ∷ xs) = elim (next_chosen dest c x) [
  | inl (stays, short) ↦ elim (from_chosen dest c xs) [
    | inl (e, rest) ↦ inl (considered dest (chosen c) x xs (chosen c) stays ∙ e, (short, rest))
    | inr (y, e, longer, l) ↦ inr (
      y,
      considered dest (chosen c) x xs (chosen c) stays ∙ e,
      longer,
      behind x (Shorter-NoLonger dest (prefix c) (prefix y) x short longer) l,
    )
  ]
  | inr (moves, same, long) ↦ elim (from_chosen dest x xs) [
    | inl (e, rest) ↦ inr (
      x,
      considered dest (chosen c) x xs (chosen x) moves ∙ e,
      long,
      head_chosen dest x xs same rest,
    )
    | inr (y, e, longer, l) ↦ inr (
      y,
      considered dest (chosen c) x xs (chosen x) moves ∙ e,
      omega arith,
      behind x (inr longer) l,
    )
  ]
]

abbrev unset : Best
unset = record { route_found = false; best_next_hop = 0; longest_prefix = 0 }

next_unset :
    (dest : ℕ) (x : RoutingTableEntry)
    → ((consider dest unset x ≡ unset) × (matches dest x ≡ false))
      ⊎ ((consider dest unset x ≡ chosen x) × (matches dest x ≡ true))
unfolding consider
next_unset dest x = elim (Bool-cases (matches dest x)) [
  | inr differs ↦ inl (ground arith, differs)
  | inl same ↦ inr (ground arith, same)
]

from_unset :
    (dest : ℕ) (xs : List RoutingTableEntry)
    → ((consider_all dest unset xs ≡ unset) × All (λ e. matches dest e ≡ false) xs)
      ⊎ ((e : RoutingTableEntry) × (consider_all dest unset xs ≡ chosen e) × IsLongest dest xs e)
unfolding consider_all
from_unset dest [] = inl (refl, tt)
from_unset dest (x ∷ xs) = elim (next_unset dest x) [
  | inl (stays, differs) ↦ elim (from_unset dest xs) [
    | inl (e, rest) ↦ inl (considered dest unset x xs unset stays ∙ e, (differs, rest))
    | inr (y, e, l) ↦ inr (y, considered dest unset x xs unset stays ∙ e, behind x (inl differs) l)
  ]
  | inr (moves, same) ↦ elim (from_chosen dest x xs) [
    | inl (e, rest) ↦
        inr (x, considered dest unset x xs (chosen x) moves ∙ e, head_chosen dest x xs same rest)
    | inr (y, e, longer, l) ↦
        inr (y, considered dest unset x xs (chosen x) moves ∙ e, behind x (inr longer) l)
  ]
]

-- `lookup_route` finds no route where no entry matches; else it returns the next hop of the entry
-- that matches with the longest prefix, the first such one in the table.
pub lookup_route-IsLongest :
    (r : Router) (ip : IPv4Address)
    → ((lookup_route r ip ≡ (false, 0)) × All (λ e. matches ip.address e ≡ false) r.routing_table)
      ⊎ ((e : RoutingTableEntry) × (lookup_route r ip ≡ (true, e.next_hop_id))
          × IsLongest ip.address r.routing_table e)
unfolding lookup_route
lookup_route-IsLongest r ip = elim (from_unset ip.address r.routing_table) [
  | inl (e, rest) ↦ inl (ap (λ b. (b.route_found, b.best_next_hop)) e, rest)
  | inr (x, e, l) ↦ inr (x, ap (λ b. (b.route_found, b.best_next_hop)) e, l)
]
