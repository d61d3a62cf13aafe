-- ===== src/Router/Routes/Tests.antt =====
-- Runs of `compute_routes` (core-engine/src/network/router.cpp) on a topology of three routers.
use mathlib.Core.List.{Memᴰ}
use network_simulator_platfo.Common.{ℕ, ◌≤◌, ◌≡◌, refl, arith, some, none, [], ◌∷◌, All}
use network_simulator_platfo.Common.Map.{Map, find, assign, nat_key}
use network_simulator_platfo.Addressing.{IPv4Address, SubnetMask}
use network_simulator_platfo.Breaker.{Readings}
use network_simulator_platfo.Router.{Router, RoutingTableEntry}
use network_simulator_platfo.Router.Routes.{
  Topology, Links, Search, label, shortest, compute_routes, search, start, unreached, push, expand,
  scan, relax, touch, price, total,
}
use network_simulator_platfo.Router.Routes.Ends.{shortest_ends}
use network_simulator_platfo.Router.Routes.Paths.{
  nodes, links_from, prices, IsClosed, PathTo, here, onward,
}
use network_simulator_platfo.Router.Routes.Filled.{compute_routes-IsRoute, compute_routes-least}
use network_simulator_platfo.Router.Routes.Hops.{links_seen, IsRoute, IsAddressed}
use network_simulator_platfo.Router.Routes.Entry.{IsEntry}

-- 1 and 2 are neighbours, and 3 is reached from either.
abbrev triangle : Topology
triangle = (1, (3, 10) ∷ (2, 4) ∷ []) ∷ (2, (1, 4) ∷ (3, 1) ∷ []) ∷ (3, []) ∷ []

abbrev ticks : ℕ → Readings
ticks n = record { checked = n; probed = n; settled = n }

abbrev no_breakers : Links
no_breakers = record { breakers = []; readings = 0 }

abbrev router : Router
router = record {
  node = record {
    id = 1;
    name = [];
    ip = record { address = 167772161 };
    mask = record { mask = 4294901760 };
    mac = [];
    rate_limiter = none;
  };
  routing_table = [];
  link_breakers = [];
}

abbrev ips : Map ℕ IPv4Address
ips =
    (1, record { address = 167772161 })
    ∷ (2, record { address = 167837697 })
    ∷ (3, record { address = 167903233 })
    ∷ []

abbrev masks : Map ℕ SubnetMask
masks =
    (1, record { mask = 4294901760 })
    ∷ (2, record { mask = 4294901760 })
    ∷ (3, record { mask = 4294901760 })
    ∷ []

triangle-IsClosed : IsClosed (nodes triangle) 999999 triangle
triangle-IsClosed = (
  ((refl, omega arith), ((refl, omega arith), tt)),
  (((refl, omega arith), ((refl, omega arith), tt)), (tt, tt)),
)

triangle-IsAddressed : IsAddressed ips masks (nodes triangle)
unfolding find
triangle-IsAddressed =
    (((_, refl), (_, refl)), (((_, refl), (_, refl)), (((_, refl), (_, refl)), tt)))

-- From 1 over 2 to 3.
over_2 : PathTo (links_from ticks triangle 1 no_breakers) 1 3 5
unfolding prices price find
over_2 = onward (onward here (Memᴰ.tail (Memᴰ.head refl))) (Memᴰ.tail (Memᴰ.head refl))

over_2_seen : PathTo (links_seen ticks router triangle) 1 3 5
over_2_seen = over_2

shortest_ends_example : (t : Search) × (shortest ticks triangle 1 no_breakers ≡ some t)
shortest_ends_example = shortest_ends ticks triangle 1 no_breakers

compute_routes-IsRoute_example :
    (r : Router) × (compute_routes ticks router triangle ips masks ≡ some r)
    × All (IsRoute (links_seen ticks router triangle) 1 ips masks) r.routing_table
compute_routes-IsRoute_example =
    compute_routes-IsRoute ticks router triangle ips masks 999999 triangle-IsClosed (omega arith)
      (omega arith) refl

compute_routes-least_example :
    (r : Router) × (compute_routes ticks router triangle ips masks ≡ some r)
    × (e : RoutingTableEntry) × Memᴰ e r.routing_table
    × IsEntry ips masks 3 e.next_hop_id e.metric e
    × (e.metric ≤ 5)
compute_routes-least_example =
    compute_routes-least ticks router triangle ips masks 999999 3 5 triangle-IsClosed (omega arith)
      (omega arith) refl triangle-IsAddressed over_2_seen (λ e. omega (arith, e)) (omega arith)

-- A neighbour that is not a node of the topology gets the distance 0 when it is read, and no entry
-- leads to it.
abbrev open_end : Topology
open_end = (1, (2, 4) ∷ []) ∷ []

open_end_distance :
    shortest ticks open_end 1 no_breakers
    ≡ some (record {
      labels = record { distances = (1, 0) ∷ (2, 0) ∷ []; parent = []; min_heap = [] };
      links = no_breakers;
    })
unfolding shortest start search unreached push expand scan relax touch price label total find assign
open_end_distance = refl
