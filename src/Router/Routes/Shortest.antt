-- ===== src/Router/Routes/Shortest.antt =====
-- The search of `compute_routes` (core-engine/src/network/router.cpp) finds the shortest paths.
use network_simulator_platfo.Common.{
  ℕ, suc, ◌*◌, ◌≤◌, ◌<◌, ◌≡◌, ◌≢◌, ◌⊎◌, inl, inr, refl, ap, true, some, List, [], ◌∷◌, arith,
  length,
}
use network_simulator_platfo.Common.Map.{nat_key}
use network_simulator_platfo.Breaker.{Readings}
use network_simulator_platfo.Router.Routes.{
  Topology, Links, Search, label, infinity, inflated, start, shortest, first_hop,
}
use network_simulator_platfo.Router.Routes.Invariant.{mem}
use network_simulator_platfo.Router.Routes.Paths.{nodes, links_from, IsClosed, PathTo, PathVia}
use network_simulator_platfo.Router.Routes.Outer.{IsRunning, search-IsRunning}
use network_simulator_platfo.Router.Routes.Ends.{shortest_ends}
use network_simulator_platfo.Router.Routes.Start.{start-IsRunning}
use network_simulator_platfo.Router.Routes.Ended.{
  ends, near, bounded, no_shorter, via, length-settled,
}

length-nodes : (graph : Topology) → length (nodes graph) ≡ length graph
length-nodes [] = refl
length-nodes (p ∷ graph) = ap suc (length-nodes graph)

module _ (clock : ℕ → Readings) (graph : Topology) (source : ℕ) (k : Links) (keys : List ℕ)
    (most : ℕ) (keys_are : keys ≡ nodes graph) (closed : IsClosed keys most graph)
    (dear : inflated ≤ most) (small : suc (length keys) * most < infinity)
    (there : mem source keys ≡ true) where
  pub final :
      (t : Search) × (shortest clock graph source k ≡ some t)
      × (settled : List ℕ) × (current : ℕ) × IsRunning clock graph source k keys most keys_are
          closed dear
          (omega (arith, small))
          settled
          current
          t
      × (t.labels.min_heap ≡ [])
  unfolding shortest
  final =
      let (t, e) = shortest_ends clock graph source k in
      let (settled, current, r, empty) =
        search-IsRunning clock graph source k keys most keys_are closed dear (omega (arith, small))
          _ [] 0 (start graph source k) t
          (start-IsRunning clock graph source k keys most keys_are closed dear small there) e in
      (t, e, settled, current, r, empty)

-- In a topology whose neighbours are all nodes of it, where no link costs more than `most` and paths
-- through all nodes and one more link do not reach infinity, the distance of a node other than the
-- source is infinity, or it is the cost of a path from the source whose first node the loop along
-- the parents finds.
pub shortest-PathVia :
    (clock : ℕ → Readings) (graph : Topology) (source : ℕ) (k : Links) (most w : ℕ)
    → IsClosed (nodes graph) most graph
    → inflated ≤ most
    → suc (length (nodes graph)) * most < infinity
    → mem source (nodes graph) ≡ true
    → mem w (nodes graph) ≡ true
    → w ≢ source
    → (t : Search) × (shortest clock graph source k ≡ some t)
      × ((label t.labels.distances w ≡ infinity)
          ⊎ ((hop : ℕ) × (first_hop (suc (length graph)) t.labels.parent source w ≡ some hop)
              × PathVia
                  (links_from clock graph source k)
                  source
                  hop
                  w
                  (label t.labels.distances w)))
shortest-PathVia clock graph source k most w closed dear small there known other =
    let (t, e, settled, current, r, empty) =
      final clock graph source k (nodes graph) most refl closed dear small there in
    (
      t,
      e,
      elim (ends clock graph source k (nodes graph) most refl closed dear small there settled
          current t r empty w known) [
            | inl far ↦ inl far
            | inr done ↦ inr (
                via clock graph source k (nodes graph) most refl closed dear small there settled
                  current t r empty settled (λ y m. m) r.settling.chain w (suc (length graph)) done
                  other
                  (omega (
                    arith,
                    length-settled clock graph source k (nodes graph) most refl closed dear small
                        there settled current t r empty,
                    length-nodes graph,
                  )))
          ],
    )

-- In such a topology the distance of a node is finite where a path leads to it, and no path costs
-- less.
pub shortest-least :
    (clock : ℕ → Readings) (graph : Topology) (source : ℕ) (k : Links) (most w c : ℕ)
    → IsClosed (nodes graph) most graph
    → inflated ≤ most
    → suc (length (nodes graph)) * most < infinity
    → mem source (nodes graph) ≡ true
    → PathTo (links_from clock graph source k) source w c
    → (t : Search) × (shortest clock graph source k ≡ some t)
      × (label t.labels.distances w ≤ c)
      × (label t.labels.distances w < infinity)
shortest-least clock graph source k most w c closed dear small there path =
    let (t, e, settled, current, r, empty) =
      final clock graph source k (nodes graph) most refl closed dear small there in
    let (least, done) =
      no_shorter clock graph source k (nodes graph) most refl closed dear small there settled
        current t r empty path in
    (
      t,
      e,
      least,
      omega (
        arith,
        small,
        near clock graph source k (nodes graph) most refl closed dear small there settled current t
            r empty w done,
        bounded clock graph source k (nodes graph) most refl closed dear small there settled current
            t r empty,
      ),
    )
