-- ===== src/Router/Routes/Paths.antt =====
-- Paths in a topology, with the costs that `compute_routes` (core-engine/src/network/router.cpp) gives
-- to the links.
use mathlib.Core.List.{Memᴰ}
use network_simulator_platfo.Common.{
  ℕ, ◌+◌, ◌≤◌, ◌≡◌, true, List, [], ◌∷◌, ◌==◌, if◌then◌else◌, All,
}
use network_simulator_platfo.Common.Map.{nat_key}
use network_simulator_platfo.Breaker.{Readings}
use network_simulator_platfo.Router.Routes.{Topology, Links, price}
use network_simulator_platfo.Router.Routes.Invariant.{mem}

-- The nodes of a topology, and the links from one of them.
abbrev pub nodes : Topology → List ℕ
nodes [] = []
nodes ((u, edges) ∷ graph) = u ∷ nodes graph

abbrev pub edges_of : Topology → ℕ → List (ℕ × ℕ)
edges_of [] u = []
edges_of ((w, edges) ∷ graph) u = if w == u then edges else edges_of graph u

-- The links of the source with their costs, an open circuit inflated, each breaker asked in turn.
unfoldable pub prices : (ℕ → Readings) → Links → List (ℕ × ℕ) → List (ℕ × ℕ)
prices clock k [] = []
prices clock k ((v, original_cost) ∷ edges) =
    let (cost, k') = price clock k v original_cost in (v, cost) ∷ prices clock k' edges

-- The links from a node with the costs that the search sees.
abbrev pub links_from : (ℕ → Readings) → Topology → ℕ → Links → ℕ → List (ℕ × ℕ)
links_from clock graph source k u =
    if u == source then prices clock k (edges_of graph u) else edges_of graph u

-- A path from the source with its cost.
pub data PathTo (out : ℕ → List (ℕ × ℕ)) (source : ℕ) : ℕ → ℕ → Type 0 where
  here : PathTo out source source 0
  onward :
      {u v cost d : ℕ}
      → PathTo out source u d
      → Memᴰ (v, cost) (out u)
      → PathTo out source v (d + cost)

-- A path from the source that goes to a node first.
pub data PathVia (out : ℕ → List (ℕ × ℕ)) (source hop : ℕ) : ℕ → ℕ → Type 0 where
  first : {cost : ℕ} → Memᴰ (hop, cost) (out source) → PathVia out source hop hop cost
  onward :
      {u v cost d : ℕ}
      → PathVia out source hop u d
      → Memᴰ (v, cost) (out u)
      → PathVia out source hop v (d + cost)

-- Every neighbour is a node of the topology, and no link costs more than `most`.
abbrev pub IsClosed : List ℕ → ℕ → Topology → Type 0
IsClosed keys most [] = Unit {0}
IsClosed keys most ((u, edges) ∷ graph) =
    All (λ e. (mem e.0 keys ≡ true) × (e.1 ≤ most)) edges × IsClosed keys most graph
