-- ===== src/Router/Routes/Filled.antt =====
-- `compute_routes` (core-engine/src/network/router.cpp) from its topology to its table.
use mathlib.Core.List.{Memᴰ}
use network_simulator_platfo.Common.{
  ℕ, suc, ◌*◌, ◌≤◌, ◌<◌, ◌≡◌, ◌≢◌, inl, inr, refl, ◌∙◌, sym, ap, true, false, some, List, All,
  arith, length, Option-cases, All_map,
}
use network_simulator_platfo.Common.Map.{Map, find, nat_key}
use network_simulator_platfo.Addressing.{IPv4Address, SubnetMask}
use network_simulator_platfo.Breaker.{Readings}
use network_simulator_platfo.Router.{Router, RoutingTableEntry}
use network_simulator_platfo.Router.Routes.{
  Topology, Search, infinity, inflated, label, unreached, shortest, fill, compute_routes,
}
use network_simulator_platfo.Router.Routes.Invariant.{mem}
use network_simulator_platfo.Router.Routes.Paths.{nodes, IsClosed, PathTo}
use network_simulator_platfo.Router.Routes.Ends.{shortest_ends}
use network_simulator_platfo.Router.Routes.Shortest.{shortest-least}
use network_simulator_platfo.Router.Routes.Keyed.{present, shortest-IsKeyed, unreached-IsKeyed}
use network_simulator_platfo.Router.Routes.Table.{fill-All, fill-Memᴰ}
use network_simulator_platfo.Router.Routes.Entry.{IsEntry}
use network_simulator_platfo.Router.Routes.Hops.{
  links_of, links_seen, IsRoute, IsAddressed, IsAddressed-at, itself, has_entry, label_at, hops,
  hop_known, path_known, from_IsRoute, filled,
}

computed :
    (clock : ℕ → Readings) (r : Router) (graph : Topology) (node_to_ip : Map ℕ IPv4Address)
    (node_to_mask : Map ℕ SubnetMask) (t : Search) (table : List RoutingTableEntry)
    → mem r.node.id (nodes graph) ≡ true
    → shortest clock graph r.node.id (links_of r) ≡ some t
    → fill node_to_ip node_to_mask (suc (length graph)) t.labels.parent r.node.id t.labels.distances
      ≡ some table
    → compute_routes clock r graph node_to_ip node_to_mask
      ≡ some (record r { routing_table = table; link_breakers = t.links.breakers })
unfolding compute_routes
computed clock r graph ips masks t table there e f =
    elim (Option-cases (find r.node.id (unreached graph))) [
      | inl missing ↦
          let gone : false ≡ true =
            sym (ap present missing) ∙ (unreached-IsKeyed graph).known r.node.id ∙ there in
          cc
      | inr (d, found) ↦ simp (found, e, f, compute_routes) refl
    ]

-- In a topology whose neighbours are all nodes of it, the router among them, where no link costs more
-- than `most`, which is at least the inflated cost, and paths through all nodes and one more link do
-- not reach infinity, `compute_routes` returns, and every entry of its table is for a node other than
-- the router, with the subnet of that node's address and mask, and with the cost, below the inflated
-- one, of a path that goes to the next hop first.
pub compute_routes-IsRoute :
    (clock : ℕ → Readings) (r : Router) (graph : Topology) (node_to_ip : Map ℕ IPv4Address)
    (node_to_mask : Map ℕ SubnetMask) (most : ℕ)
    → IsClosed (nodes graph) most graph
    → inflated ≤ most
    → suc (length (nodes graph)) * most < infinity
    → mem r.node.id (nodes graph) ≡ true
    → (r' : Router) × (compute_routes clock r graph node_to_ip node_to_mask ≡ some r')
      × All (IsRoute (links_seen clock r graph) r.node.id node_to_ip node_to_mask) r'.routing_table
compute_routes-IsRoute clock r graph ips masks most closed dear small there =
    let k = links_of r in
    let (t, e) = shortest_ends clock graph r.node.id k in
    let (table, f) = filled clock graph r.node.id k most closed dear small there ips masks t e in
    let keyed = shortest-IsKeyed clock graph r.node.id k most t closed there e in
    (
      record r { routing_table = table; link_breakers = t.links.breakers },
      computed clock r graph ips masks t table there e f,
      All_map table
          (from_IsRoute clock graph r.node.id k most closed dear small there ips masks t e)
          (fill-All ips masks _ _ _ t.labels.distances table keyed.distinct f),
    )

-- In a topology whose neighbours are all nodes of it, the router among them, where no link costs more
-- than `most`, which is at least the inflated cost, and paths through all nodes and one more link do
-- not reach infinity, and whose nodes all have an address and a mask: `compute_routes` returns, and a
-- node other than the router that a path leads to for less than the inflated cost has an entry, whose
-- metric is at most the cost of the path.
pub compute_routes-least :
    (clock : ℕ → Readings) (r : Router) (graph : Topology) (node_to_ip : Map ℕ IPv4Address)
    (node_to_mask : Map ℕ SubnetMask) (most w c : ℕ)
    → IsClosed (nodes graph) most graph
    → inflated ≤ most
    → suc (length (nodes graph)) * most < infinity
    → mem r.node.id (nodes graph) ≡ true
    → IsAddressed node_to_ip node_to_mask (nodes graph)
    → PathTo (links_seen clock r graph) r.node.id w c
    → w ≢ r.node.id
    → c < inflated
    → (r' : Router) × (compute_routes clock r graph node_to_ip node_to_mask ≡ some r')
      × (e : RoutingTableEntry) × Memᴰ e r'.routing_table
      × IsEntry node_to_ip node_to_mask w e.next_hop_id e.metric e
      × (e.metric ≤ c)
compute_routes-least clock r graph ips masks most w c closed dear small there addressed path other
      cheap =
    let k = links_of r in
    let (t, e, least, finite) =
      shortest-least clock graph r.node.id k most w c closed dear small there path in
    let (table, f) = filled clock graph r.node.id k most closed dear small there ips masks t e in
    let keyed = shortest-IsKeyed clock graph r.node.id k most t closed there e in
    let known = path_known clock graph r.node.id k most closed dear small there path in
    let (d, at) = has_entry w t.labels.distances (keyed.known w ∙ known) in
    let is_d : label t.labels.distances w ≡ d = label_at w d t.labels.distances at in
    let (hop, g, via) =
      hops clock graph r.node.id k most closed dear small there t e w d at other
        (omega (arith, is_d)) in
    let own = IsAddressed-at ips masks (nodes graph) w addressed known in
    let next =
      IsAddressed-at ips masks (nodes graph) hop addressed
        (hop_known clock graph r.node.id k most closed dear small there via) in
    let (x, m, is) =
      fill-Memᴰ ips masks (suc (length graph)) t.labels.parent r.node.id t.labels.distances table w
        hop d next.0.0 own.0.0 own.1.0 f at other (omega (arith, is_d)) g next.0.1 own.0.1
        own.1.1 in
    (
      record r { routing_table = table; link_breakers = t.links.breakers },
      computed clock r graph ips masks t table there e f,
      x,
      m,
      itself ips masks w hop d x is,
      omega (arith, is.cost, is_d),
    )
