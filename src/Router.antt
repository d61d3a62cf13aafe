-- ===== src/Router.antt =====
-- Routers: core-engine/include/network/router.hpp and core-engine/src/network/router.cpp: the state, the
-- breakers of the links and the lookup of a route; `Routes` has `compute_routes`.
pub mod Links
pub mod Lookup
pub mod Routes
mod Tests
use Prim.Native.Nat.{bit_and}
use network_simulator_platfo.Common.{
  ℕ, Bool, true, false, not, ◌&&◌, ◌||◌, Option, none, some, List, [], ◌∷◌, ltb, ◌==◌,
  if◌then◌else◌,
}
use network_simulator_platfo.Common.Map.{Map, find, assign, nat_key}
use network_simulator_platfo.Common.Words.{Bytes}
use network_simulator_platfo.Addressing.{IPv4Address, SubnetMask, to_prefix_length}
use network_simulator_platfo.Breaker.{
  CircuitBreaker, CircuitState, Readings, make_default, record_success, record_failure, get_state,
}
use network_simulator_platfo.Node.{Node}

pub record RoutingTableEntry : Type 0 where
  pub destination_subnet : IPv4Address
  pub mask : SubnetMask
  pub next_hop_id : ℕ
  pub interface_name : Bytes
  pub metric : ℕ

pub record Router : Type 0 where
  pub node : Node
  pub routing_table : List RoutingTableEntry
  pub link_breakers : Map ℕ CircuitBreaker

-- `link_breakers_[neighbor_id]`: a key that is missing gets a new breaker, which reads the clock.
unfoldable pub breaker_of : Router → ℕ → ℕ → CircuitBreaker
breaker_of r neighbor_id created = elim (find neighbor_id r.link_breakers) [
  | none ↦ make_default created
  | some breaker ↦ breaker
]

abbrev pub with_breaker : Router → ℕ → CircuitBreaker → Router
with_breaker r neighbor_id breaker = record r {
  link_breakers = assign neighbor_id breaker r.link_breakers;
}

unfoldable pub record_link_success : Router → ℕ → ℕ → Readings → Router
record_link_success r neighbor_id created t =
    with_breaker r neighbor_id (record_success (breaker_of r neighbor_id created) t).0

unfoldable pub record_link_failure : Router → ℕ → ℕ → Readings → Router
record_link_failure r neighbor_id created t =
    with_breaker r neighbor_id (record_failure (breaker_of r neighbor_id created) t).0

unfoldable pub get_link_state : Router → ℕ → ℕ → Readings → Router × CircuitState
get_link_state r neighbor_id created t =
    let breaker = get_state (breaker_of r neighbor_id created) t in
    (with_breaker r neighbor_id breaker, breaker.state)

-- The local variables of `lookup_route`.
pub record Best : Type 0 where
  pub route_found : Bool
  pub best_next_hop : ℕ
  pub longest_prefix : ℕ

unfoldable pub matches : ℕ → RoutingTableEntry → Bool
matches dest_raw entry =
    let mask_val = entry.mask.mask in
    bit_and dest_raw mask_val == bit_and entry.destination_subnet.address mask_val

-- The body of the loop.
unfoldable pub consider : ℕ → Best → RoutingTableEntry → Best
consider dest_raw best entry =
    let current_prefix = to_prefix_length entry.mask in
    if matches dest_raw entry
    then if not best.route_found || ltb best.longest_prefix current_prefix
      then record {
        route_found = true;
        best_next_hop = entry.next_hop_id;
        longest_prefix = current_prefix;
      }
      else best
    else best

unfoldable pub consider_all : ℕ → Best → List RoutingTableEntry → Best
consider_all dest_raw best [] = best
consider_all dest_raw best (entry ∷ entries) =
    consider_all dest_raw (consider dest_raw best entry) entries

unfoldable pub lookup_route : Router → IPv4Address → Bool × ℕ
lookup_route r destination_ip =
    let best =
      consider_all destination_ip.address
        (record { route_found = false; best_next_hop = 0; longest_prefix = 0 }) r.routing_table in
    (best.route_found, best.best_next_hop)
