-- ===== src/Router/Routes/Keyed.antt =====
-- The keys of the distances of `compute_routes` (core-engine/src/network/router.cpp): the nodes of the
-- topology, each once.
use network_simulator_platfo.Common.{
  ℕ, zero, suc, ◌≤◌, ◌≡◌, inl, inr, refl, subst, Bool, true, false, Option, none, some, List, [],
  ◌∷◌, All, arith, ltb, ◌==◌, Bool-cases, Option-cases, ==_iff,
}
use network_simulator_platfo.Common.Map.{Map, find, assign, nat_key, find-assign}
use network_simulator_platfo.Common.Entries.{IsDistinct, assign-IsDistinct}
use network_simulator_platfo.Common.Words.{add32}
use network_simulator_platfo.Breaker.{Readings}
use network_simulator_platfo.Router.Routes.{
  Topology, Labels, Links, Search, label, touch, relax, infinity, price, scan, expand, search,
  unreached, start, shortest,
}
use network_simulator_platfo.Router.Routes.Invariant.{mem}
use network_simulator_platfo.Router.Routes.Paths.{nodes, IsClosed}

abbrev pub present : Option ℕ → Bool
present none = false
present (some d) = true

-- One entry for each of the keys, and no other.
pub record IsKeyed (keys : List ℕ) (m : Map ℕ ℕ) : Type 0 where
  pub distinct : IsDistinct m
  pub known : (w : ℕ) → present (find w m) ≡ mem w keys

abbrev Among : List ℕ → ℕ × ℕ → Type 0
Among keys e = mem e.0 keys ≡ true

assign-IsKeyed :
    (keys : List ℕ) (v d : ℕ) (m : Map ℕ ℕ)
    → mem v keys ≡ true
    → IsKeyed keys m
    → IsKeyed keys (assign v d m)
assign-IsKeyed keys v d m h i = record {
  distinct = assign-IsDistinct v d m i.distinct;
  known = λ w. ground (arith, find-assign v w d m, i.known w, ==_iff v w, ==_iff w v);
}

touch-IsKeyed :
    (keys : List ℕ) (v : ℕ) (m : Map ℕ ℕ)
    → mem v keys ≡ true
    → IsKeyed keys m
    → IsKeyed keys (touch m v)
unfolding touch
touch-IsKeyed keys v m h i = elim (Option-cases (find v m)) [
  | inl e ↦ rw (e, touch) (assign-IsKeyed keys v 0 m h i)
  | inr (d, e) ↦ rw (e, touch) i
]

relax-IsKeyed :
    (keys : List ℕ) (u current_dist : ℕ) (l : Labels) (v cost : ℕ)
    → mem v keys ≡ true
    → IsKeyed keys l.distances
    → IsKeyed keys (relax u current_dist l v cost).distances
unfolding relax
relax-IsKeyed keys u d l v cost h i = elim (Bool-cases (ltb (add32 d cost) (label l.distances v))) [
  | inl e ↦ rw (e, relax) (assign-IsKeyed keys v (add32 d cost) l.distances h i)
  | inr e ↦ rw (e, relax) (touch-IsKeyed keys v l.distances h i)
]

scan-IsKeyed :
    (clock : ℕ → Readings) (keys : List ℕ) (source u d : ℕ) (s : Search) (edges : List (ℕ × ℕ))
    → All (Among keys) edges
    → IsKeyed keys s.labels.distances
    → IsKeyed keys (scan clock source u d s edges).labels.distances
unfolding scan
scan-IsKeyed clock keys source u d s [] a i = i
scan-IsKeyed clock keys source u d s ((v, c) ∷ edges) a i = elim (Bool-cases (u == source)) [
  | inl e ↦
      rw (e, scan)
        (scan-IsKeyed clock keys source u d
          (record {
            labels = relax u d s.labels v (price clock s.links v c).0;
            links = (price clock s.links v c).1;
          })
          edges a.1 (relax-IsKeyed keys u d s.labels v _ a.0 i))
  | inr e ↦
      rw (e, scan)
        (scan-IsKeyed clock keys source u d
          (record { labels = relax u d s.labels v c; links = s.links }) edges a.1
          (relax-IsKeyed keys u d s.labels v c a.0 i))
]

among :
    (keys : List ℕ) (most : ℕ) (edges : List (ℕ × ℕ))
    → All (λ e. (mem e.0 keys ≡ true) × (e.1 ≤ most)) edges
    → All (Among keys) edges
among keys most [] a = tt
among keys most (e ∷ edges) a = (a.0.0, among keys most edges a.1)

find-Among :
    (keys : List ℕ) (most : ℕ) (graph : Topology) (u : ℕ) (edges : List (ℕ × ℕ))
    → IsClosed keys most graph
    → find u graph ≡ some edges
    → All (Among keys) edges
unfolding find
find-Among keys most [] u edges a e = cc
find-Among keys most ((w, es) ∷ graph) u edges a e = elim (Bool-cases (w == u)) [
  | inl at ↦
      let same : es ≡ edges = ground (arith) in
      subst (All (Among keys)) same (among keys most es a.0)
  | inr behind ↦ find-Among keys most graph u edges a.1 (ground (arith))
]

expand-IsKeyed :
    (clock : ℕ → Readings) (keys : List ℕ) (most : ℕ) (graph : Topology) (source : ℕ) (s : Search)
    (d u : ℕ)
    → IsClosed keys most graph
    → IsKeyed keys s.labels.distances
    → IsKeyed keys (expand clock graph source s d u).labels.distances
unfolding expand
expand-IsKeyed clock keys most graph source s d u closed i =
    elim (Bool-cases (ltb (label s.labels.distances u) d)) [
      | inl stale ↦ rw (stale, expand) i
      | inr fresh ↦ elim (Option-cases (find u graph)) [
        | inl e ↦ rw (fresh, e, expand) i
        | inr (edges, e) ↦
            rw (fresh, e, expand)
              (scan-IsKeyed clock keys source u d s edges
                (find-Among keys most graph u edges closed e) i)
      ]
    ]

module _ (clock : ℕ → Readings) (keys : List ℕ) (most : ℕ) (graph : Topology) (source : ℕ)
    (closed : IsClosed keys most graph) where
  search-IsKeyed :
      (fuel : ℕ) (s t : Search)
      → IsKeyed keys s.labels.distances
      → search clock fuel graph source s ≡ some t
      → IsKeyed keys t.labels.distances
  unfolding search
  search-IsKeyed zero s t i e = cc
  search-IsKeyed (suc fuel) s t i e = after s.labels.min_heap refl (search-IsKeyed fuel)
    where
      after :
          (heap : List (ℕ × ℕ))
          → s.labels.min_heap ≡ heap
          → ((s t : Search)
              → IsKeyed keys s.labels.distances
              → search clock fuel graph source s ≡ some t
              → IsKeyed keys t.labels.distances)
          → IsKeyed keys t.labels.distances
      after [] top ih =
          let ends : some s ≡ some t = simp (top, search) at e in
          let same : s ≡ t = cc in subst (λ s. IsKeyed keys s.labels.distances) same i
      after ((d, u) ∷ heap) top ih =
          let popped : Search = record s { labels = record (s.labels) { min_heap = heap } } in
          ih (expand clock graph source popped d u) t
            (expand-IsKeyed clock keys most graph source popped d u closed i)
            (rw (top, search) at e)

pub unreached-IsKeyed : (graph : Topology) → IsKeyed (nodes graph) (unreached graph)
unfolding unreached find
unreached-IsKeyed [] = record { distinct = tt; known = λ w. refl }
unreached-IsKeyed ((v, edges) ∷ graph) =
    let i = unreached-IsKeyed graph in
    record {
      distinct = assign-IsDistinct v infinity (unreached graph) i.distinct;
      known = λ w.
          ground
            (arith, find-assign v w infinity (unreached graph), i.known w, ==_iff v w, ==_iff w v);
    }

pub shortest-IsKeyed :
    (clock : ℕ → Readings) (graph : Topology) (source : ℕ) (k : Links) (most : ℕ) (t : Search)
    → IsClosed (nodes graph) most graph
    → mem source (nodes graph) ≡ true
    → shortest clock graph source k ≡ some t
    → IsKeyed (nodes graph) t.labels.distances
unfolding shortest start
shortest-IsKeyed clock graph source k most t closed there e =
    search-IsKeyed clock (nodes graph) most graph source closed _ (start graph source k) t
      (assign-IsKeyed (nodes graph) source 0 (unreached graph) there (unreached-IsKeyed graph)) e
