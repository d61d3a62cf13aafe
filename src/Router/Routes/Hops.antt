-- ===== src/Router/Routes/Hops.antt =====
-- The distances that `compute_routes` (core-engine/src/network/router.cpp) fills its table from.
use network_simulator_platfo.Common.{
  ℕ, suc, ◌*◌, ◌≤◌, ◌<◌, ◌≡◌, ◌≢◌, inl, inr, refl, ◌∙◌, sym, ap, subst, true, false, some, List, [],
  ◌∷◌, All, arith, length, ◌==◌, Bool-cases, Option-cases, ==_iff, All_at,
}
use network_simulator_platfo.Common.Map.{Map, find, nat_key}
use network_simulator_platfo.Addressing.{IPv4Address, SubnetMask}
use network_simulator_platfo.Breaker.{Readings}
use network_simulator_platfo.Router.{Router, RoutingTableEntry}
use network_simulator_platfo.Router.Routes.{
  Topology, Links, Search, infinity, inflated, label, shortest, first_hop, fill,
}
use network_simulator_platfo.Router.Routes.Invariant.{mem}
use network_simulator_platfo.Router.Routes.Paths.{
  nodes, links_from, IsClosed, PathTo, PathVia, first, onward, here,
}
use network_simulator_platfo.Router.Routes.Outer.{closed_out}
use network_simulator_platfo.Router.Routes.Shortest.{shortest-PathVia}
use network_simulator_platfo.Router.Routes.Keyed.{present, shortest-IsKeyed}
use network_simulator_platfo.Router.Routes.Table.{IsFrom, fill_ends}
use network_simulator_platfo.Router.Routes.Entry.{IsEntry}

-- The breakers of a router before the first reading of the clock.
abbrev pub links_of : Router → Links
links_of r = record { breakers = r.link_breakers; readings = 0 }

-- The links as the search of a router sees them.
abbrev pub links_seen : (ℕ → Readings) → Router → Topology → ℕ → List (ℕ × ℕ)
links_seen clock r graph = links_from clock graph r.node.id (links_of r)

-- An entry for a node other than the source, whose metric is the cost of a path through its next hop.
pub record IsRoute (out : ℕ → List (ℕ × ℕ)) (source : ℕ) (node_to_ip : Map ℕ IPv4Address)
    (node_to_mask : Map ℕ SubnetMask) (e : RoutingTableEntry) : Type 0 where
  pub dest : ℕ
  pub other : dest ≢ source
  pub is_entry : IsEntry node_to_ip node_to_mask dest e.next_hop_id e.metric e
  pub path : PathVia out source e.next_hop_id dest e.metric
  pub cheap : e.metric < inflated

-- Every node of the list has an address and a mask.
abbrev pub IsAddressed : Map ℕ IPv4Address → Map ℕ SubnetMask → List ℕ → Type 0
IsAddressed node_to_ip node_to_mask = All (λ v.
    ((ip : IPv4Address) × (find v node_to_ip ≡ some ip))
    × ((m : SubnetMask) × (find v node_to_mask ≡ some m)))

pub IsAddressed-at :
    (node_to_ip : Map ℕ IPv4Address) (node_to_mask : Map ℕ SubnetMask) (keys : List ℕ) (v : ℕ)
    → IsAddressed node_to_ip node_to_mask keys
    → mem v keys ≡ true
    → ((ip : IPv4Address) × (find v node_to_ip ≡ some ip))
      × ((m : SubnetMask) × (find v node_to_mask ≡ some m))
IsAddressed-at ips masks [] v a h = cc
IsAddressed-at ips masks (k ∷ keys) v a h = elim (Bool-cases (k == v)) [
  | inl e ↦
      subst
        (λ v.
          ((ip : IPv4Address) × (find v ips ≡ some ip))
          × ((m : SubnetMask) × (find v masks ≡ some m)))
        ((==_iff k v).0 e) a.0
  | inr e ↦ IsAddressed-at ips masks keys v a.1 (ground arith)
]

pub itself :
    (ips : Map ℕ IPv4Address) (masks : Map ℕ SubnetMask) (dest hop cost : ℕ) (e : RoutingTableEntry)
    → IsEntry ips masks dest hop cost e
    → IsEntry ips masks dest e.next_hop_id e.metric e
itself ips masks dest hop cost e i = record {
  ip = i.ip;
  has_ip = i.has_ip;
  has_mask = i.has_mask;
  subnet = i.subnet;
  next_hop = refl;
  cost = refl;
  on_interface = i.on_interface;
}

pub has_entry : (w : ℕ) (m : Map ℕ ℕ) → present (find w m) ≡ true → (d : ℕ) × (find w m ≡ some d)
has_entry w m h = elim (Option-cases (find w m)) [
  | inl e ↦ let gone : false ≡ true = sym (ap present e) ∙ h in cc
  | inr (d, e) ↦ (d, e)
]

pub label_at : (w d : ℕ) (m : Map ℕ ℕ) → find w m ≡ some d → label m w ≡ d
unfolding label
label_at w d m e = rw (e, label) refl

module _ (clock : ℕ → Readings) (graph : Topology) (source : ℕ) (k : Links) (most : ℕ)
    (closed : IsClosed (nodes graph) most graph) (dear : inflated ≤ most)
    (small : suc (length (nodes graph)) * most < infinity)
    (there : mem source (nodes graph) ≡ true) where
  abbrev out : ℕ → List (ℕ × ℕ)
  out = links_from clock graph source k

  pub hops :
      (t : Search)
      → shortest clock graph source k ≡ some t
      → (v c : ℕ) → find v t.labels.distances ≡ some c
      → v ≢ source
      → c < inflated
      → (hop : ℕ) × (first_hop (suc (length graph)) t.labels.parent source v ≡ some hop)
        × PathVia out source hop v c
  hops t e v c at other cheap =
      let keyed = shortest-IsKeyed clock graph source k most t closed there e in
      let known : mem v (nodes graph) ≡ true = sym (keyed.known v) ∙ ap present at in
      let (t', e', found) =
        shortest-PathVia clock graph source k most v closed dear small there known other in
      let same : t' ≡ t = cc in
      let cost : label t'.labels.distances v ≡ c =
        subst (λ s. label s.labels.distances v ≡ c) (sym same)
          (label_at v c t.labels.distances at) in
      elim found [
        | inl far ↦ absurd (omega (arith, far, cost))
        | inr (hop, f, path) ↦ (
          hop,
          subst (λ s. first_hop (suc (length graph)) s.labels.parent source v ≡ some hop) same f,
          subst (PathVia out source hop v) cost path,
        )
      ]

  pub hop_known : {hop w c : ℕ} → PathVia out source hop w c → mem hop (nodes graph) ≡ true
  hop_known {hop} (first {cost} link) =
      (All_at _ (out source) (hop, cost)
        (closed_out clock graph source k (nodes graph) most refl closed dear (omega (arith, small))
          source there)
        link).0
  hop_known (onward path link) = hop_known path

  pub path_known : {w c : ℕ} → PathTo out source w c → mem w (nodes graph) ≡ true
  path_known here = there
  path_known (onward {u} {v} {cost} path link) =
      (All_at _ (out u) (v, cost)
        (closed_out clock graph source k (nodes graph) most refl closed dear (omega (arith, small))
          u (path_known path))
        link).0

  pub from_IsRoute :
      (node_to_ip : Map ℕ IPv4Address) (node_to_mask : Map ℕ SubnetMask) (t : Search)
      → shortest clock graph source k ≡ some t
      → (e : RoutingTableEntry)
      → IsFrom node_to_ip node_to_mask
          (suc (length graph))
          t.labels.parent
          source
          t.labels.distances
          e
      → IsRoute out source node_to_ip node_to_mask e
  from_IsRoute ips masks t e x i =
      let (hop, f, path) = hops t e i.dest i.cost i.at i.other i.cheap in
      let found = i.hops in
      let next = i.is_entry.next_hop in
      let same : hop ≡ x.next_hop_id = cc in
      record {
        dest = i.dest;
        other = i.other;
        is_entry = itself ips masks i.dest i.hop i.cost x i.is_entry;
        path =
            subst (λ h. PathVia out source h i.dest x.metric) same
              (subst (PathVia out source hop i.dest) (sym i.is_entry.cost) path);
        cheap = omega (arith, i.cheap, i.is_entry.cost);
      }

  pub filled :
      (node_to_ip : Map ℕ IPv4Address) (node_to_mask : Map ℕ SubnetMask) (t : Search)
      → shortest clock graph source k ≡ some t
      → (table : List RoutingTableEntry) × (fill node_to_ip node_to_mask
            (suc (length graph))
            t.labels.parent
            source
            t.labels.distances
          ≡ some table)
  filled ips masks t e =
      fill_ends ips masks (suc (length graph)) t.labels.parent source t.labels.distances
        (shortest-IsKeyed clock graph source k most t closed there e).distinct
        (λ v c at other cheap. let (hop, f, path) = hops t e v c at other cheap in (hop, f))
