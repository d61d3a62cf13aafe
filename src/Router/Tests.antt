-- ===== src/Router/Tests.antt =====
-- Runs of a router (core-engine/src/network/router.cpp) on concrete inputs.
use network_simulator_platfo.Common.{ℕ, ◌≡◌, ◌⊎◌, refl, true, false, [], ◌∷◌, List, All}
use network_simulator_platfo.Common.Map.{find, nat_key}
use network_simulator_platfo.Addressing.{IPv4Address, to_prefix_length, count_ones}
use network_simulator_platfo.Breaker.{Readings, success, failure, query}
use network_simulator_platfo.Node
use network_simulator_platfo.Router.{
  Router, RoutingTableEntry, lookup_route, matches, consider, consider_all,
}
use network_simulator_platfo.Router.Lookup.{IsLongest, lookup_route-IsLongest}
use network_simulator_platfo.Router.Links.{LinkCall, link_run, alone, link_run-alone}

-- A route to a network by its number, its mask and the next hop.
abbrev route : ℕ → ℕ → ℕ → RoutingTableEntry
route network mask hop = record {
  destination_subnet = record { address = network };
  mask = record { mask = mask };
  next_hop_id = hop;
  interface_name = [];
  metric = 10;
}

-- 10.0.0.0/8, 10.1.0.0/16 and 0.0.0.0/0
abbrev router : Router
router = record {
  node = Node.make 1 [] (record { address = 167772161 }) (record { mask = 4278190080 }) [];
  routing_table = route 167772160 4278190080 2 ∷ route 167837696 4294901760 3 ∷ route 0 0 4 ∷ [];
  link_breakers = [];
}

-- 10.1.0.9
abbrev target : IPv4Address
target = record { address = 167837705 }

lookup_target : lookup_route router target ≡ (true, 3)
unfolding lookup_route consider_all consider matches to_prefix_length count_ones
lookup_target = refl

lookup_route-IsLongest_example :
    ((lookup_route router target ≡ (false, 0))
      × All (λ e. matches 167837705 e ≡ false) router.routing_table)
    ⊎ ((e : RoutingTableEntry) × (lookup_route router target ≡ (true, e.next_hop_id))
        × IsLongest 167837705 router.routing_table e)
lookup_route-IsLongest_example = lookup_route-IsLongest router target

abbrev at : ℕ → Readings
at now = record { checked = now; probed = now; settled = now }

abbrev link_calls : List LinkCall
link_calls =
    record { neighbor_id = 2; created = 0; call = failure (at 1) }
    ∷ record { neighbor_id = 3; created = 1; call = success (at 2) }
    ∷ record { neighbor_id = 2; created = 2; call = query (at 3) }
    ∷ []

link_run-alone_example :
    find 2 (link_run router link_calls).link_breakers
    ≡ alone 2 (find 2 router.link_breakers) link_calls
link_run-alone_example = link_run-alone router link_calls 2
