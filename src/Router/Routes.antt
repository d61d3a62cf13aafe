-- ===== src/Router/Routes.antt =====
-- `Router::compute_routes` (core-engine/src/network/router.cpp). `std::priority_queue` is a list in
-- order, the least pair first; an `std::unordered_map` is iterated in the order of its entries here.
pub mod Heap
pub mod Ends
pub mod Invariant
pub mod Relaxation
pub mod Settling
pub mod Rounds
pub mod Paths
pub mod Outer
pub mod Start
pub mod Ended
pub mod Shortest
pub mod Keyed
pub mod Entry
pub mod Table
pub mod Hops
pub mod Filled
mod Tests
use Prim.Native.Nat.{bit_and}
use network_simulator_platfo.Common.{
  ℕ, zero, suc, ◌+◌, ◌-◌, ◌^◌, Bool, true, false, not, ◌&&◌, ◌||◌, Option, none, some, List, [],
  ◌∷◌, ◌++◌, length, ltb, leb, ◌==◌, if◌then◌else◌,
}
use network_simulator_platfo.Common.Map.{Map, find, assign, nat_key}
use network_simulator_platfo.Common.Words.{Bytes, add32}
use network_simulator_platfo.Addressing.{IPv4Address, SubnetMask}
use network_simulator_platfo.Breaker.{
  CircuitBreaker, CircuitState, closed, opened, half_open, Readings, get_state,
}
use network_simulator_platfo.Router.{Router, RoutingTableEntry}

-- The neighbours of each node with the costs of the links.
abbrev pub Topology : Type 0
Topology = Map ℕ (List (ℕ × ℕ))

-- `std::numeric_limits<uint32_t>::max()`
abbrev pub infinity : ℕ
infinity = 2 ^ 32 - 1

-- The cost of a link whose circuit is open, and of a route that is no longer taken.
abbrev pub inflated : ℕ
inflated = 999999

-- The local variables of the search.
pub record Labels : Type 0 where
  pub distances : Map ℕ ℕ
  pub parent : Map ℕ ℕ
  pub min_heap : List (ℕ × ℕ)

-- The breakers, and how many readings of the clock their calls have made.
pub record Links : Type 0 where
  pub breakers : Map ℕ CircuitBreaker
  pub readings : ℕ

pub record Search : Type 0 where
  pub labels : Labels
  pub links : Links

-- `std::pair`'s order
abbrev pub before : ℕ × ℕ → ℕ × ℕ → Bool
before p q = ltb p.0 q.0 || (p.0 == q.0 && ltb p.1 q.1)

-- `min_heap.push(p)`
unfoldable pub push : ℕ × ℕ → List (ℕ × ℕ) → List (ℕ × ℕ)
push p [] = p ∷ []
push p (q ∷ heap) = if before q p then q ∷ push p heap else p ∷ q ∷ heap

-- What `distances[v]` reads: a key that is missing has 0.
unfoldable pub label : Map ℕ ℕ → ℕ → ℕ
label distances v = elim (find v distances) [ none ↦ 0 | some d ↦ d ]

-- `distances` behind the read: a key that was missing is there.
unfoldable pub touch : Map ℕ ℕ → ℕ → Map ℕ ℕ
touch distances v = elim (find v distances) [ none ↦ assign v 0 distances | some d ↦ distances ]

-- What the body of the inner loop does once it has the cost.
unfoldable pub relax : ℕ → ℕ → Labels → ℕ → ℕ → Labels
relax u current_dist l v cost =
    let new_dist = add32 current_dist cost in
    if ltb new_dist (label l.distances v)
    then record {
      distances = assign v new_dist l.distances;
      parent = assign v u l.parent;
      min_heap = push (new_dist, v) l.min_heap;
    }
    else record l { distances = touch l.distances v }

abbrev pub is_opened : CircuitState → Bool
is_opened opened = true
is_opened _ = false

module _ (clock : ℕ → Readings) where
  -- The cost of a link of the source, with the call of its breaker.
  unfoldable pub price : Links → ℕ → ℕ → ℕ × Links
  price k v original_cost = elim (find v k.breakers) [
    | none ↦ (original_cost, k)
    | some breaker ↦
        let b = get_state breaker (clock k.readings) in
        (
          if is_opened b.state then inflated else original_cost,
          record { breakers = assign v b k.breakers; readings = k.readings + 1 },
        )
  ]

  -- The inner loop.
  unfoldable pub scan : ℕ → ℕ → ℕ → Search → List (ℕ × ℕ) → Search
  scan source u current_dist s [] = s
  scan source u current_dist s ((v, original_cost) ∷ edges) =
      let (cost, k) =
        if u == source then price s.links v original_cost else (original_cost, s.links) in
      scan source u current_dist
        (record { labels = relax u current_dist s.labels v cost; links = k }) edges

  -- One round of the outer loop, behind the pop. The node u has a distance since it was pushed.
  unfoldable pub expand : Topology → ℕ → Search → ℕ → ℕ → Search
  expand graph source s current_dist u =
      if ltb (label s.labels.distances u) current_dist
      then s
      else elim (find u graph) [ none ↦ s | some edges ↦ scan source u current_dist s edges ]

  -- The outer loop, with fuel.
  unfoldable pub search : ℕ → Topology → ℕ → Search → Option Search
  search zero graph source s = none
  search (suc fuel) graph source s = elim s.labels.min_heap [
    | [] ↦ some s
    | (current_dist, u) ∷ heap ↦ search fuel graph source (
        expand graph source (record s { labels = record labels { min_heap = heap } }) current_dist
          u)
  ]
    where
      open s use {labels}

-- The loop that fills `distances`.
unfoldable pub unreached : Topology → Map ℕ ℕ
unreached [] = []
unreached ((node, edges) ∷ graph) = assign node infinity (unreached graph)

-- The sum of the distances.
unfoldable pub total : Map ℕ ℕ → ℕ
total [] = 0
total ((v, d) ∷ distances) = d + total distances

-- The state in front of the outer loop, behind the test for the source.
unfoldable pub start : Topology → ℕ → Links → Search
start graph source k = record {
  labels = record {
    distances = assign source 0 (unreached graph);
    parent = [];
    min_heap = push (0, source) [];
  };
  links = k;
}

-- The search from the source. Every push lowers a distance, so this much fuel is enough.
unfoldable pub shortest : (ℕ → Readings) → Topology → ℕ → Links → Option Search
shortest clock graph source k =
    let s = start graph source k in
    search clock (suc (length s.labels.min_heap + total s.labels.distances)) graph source s

-- The loop along the parents, with fuel.
unfoldable pub first_hop : ℕ → Map ℕ ℕ → ℕ → ℕ → Option ℕ
first_hop zero parent source current = none
first_hop (suc fuel) parent source current =
    let next = λ (p : ℕ). first_hop fuel parent source p in
    elim (find current parent) [
      | none ↦ some current
      | some p ↦ if p == source then some current else next p
    ]

-- "eth0"
abbrev pub interface : Bytes
interface = 101 ∷ 116 ∷ 104 ∷ 48 ∷ []

module _ (node_to_ip : Map ℕ IPv4Address) (node_to_mask : Map ℕ SubnetMask) where
  -- The entry for a destination behind the loop along its parents; none where an address or the
  -- mask is missing.
  unfoldable pub entry : ℕ → ℕ → ℕ → List RoutingTableEntry
  entry dest current total_cost = elim (find current node_to_ip) [
    | none ↦ []
    | some next_hop_ip ↦ elim (find dest node_to_ip) [
      | none ↦ []
      | some dest_ip ↦ elim (find dest node_to_mask) [
        | none ↦ []
        | some dest_mask ↦
            record {
              destination_subnet = record { address = bit_and dest_ip.address dest_mask.mask };
              mask = dest_mask;
              next_hop_id = current;
              interface_name = interface;
              metric = total_cost;
            }
            ∷ []
      ]
    ]
  ]

  abbrev pub with_entries :
      List RoutingTableEntry → Option (List RoutingTableEntry) → Option (List RoutingTableEntry)
  with_entries es none = none
  with_entries es (some table) = some (es ++ table)

  -- The loop that fills the table.
  unfoldable pub fill : ℕ → Map ℕ ℕ → ℕ → Map ℕ ℕ → Option (List RoutingTableEntry)
  fill fuel parent source [] = some []
  fill fuel parent source ((dest, total_cost) ∷ distances) =
      let rest = fill fuel parent source distances in
      if dest == source || leb inflated total_cost
      then rest
      else elim (first_hop fuel parent source dest) [
        | none ↦ none
        | some current ↦ with_entries (entry dest current total_cost) rest
      ]

-- `compute_routes`; `none` where one of its loops does not end.
unfoldable pub compute_routes :
    (ℕ → Readings) → Router → Topology → Map ℕ IPv4Address → Map ℕ SubnetMask → Option Router
compute_routes clock r graph node_to_ip node_to_mask =
    let source = r.node.id in
    let cleared = record r { routing_table = [] } in
    elim (find source (unreached graph)) [
      | none ↦ some cleared
      | some _ ↦
          elim (shortest clock graph source (record { breakers = r.link_breakers; readings = 0 })) [
            | none ↦ none
            | some s ↦
                elim (fill node_to_ip node_to_mask (suc (length graph)) s.labels.parent source
                  s.labels.distances) [
                    | none ↦ none
                    | some table ↦
                        some (record r { routing_table = table; link_breakers = s.links.breakers })
                  ]
          ]
    ]
