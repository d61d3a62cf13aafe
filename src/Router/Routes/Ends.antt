-- ===== src/Router/Routes/Ends.antt =====
-- The search of `compute_routes` (core-engine/src/network/router.cpp) ends.
use network_simulator_platfo.Common.{
  ℕ, zero, suc, ◌+◌, ◌≤◌, ◌<◌, ◌≡◌, refl, ap, none, some, List, [], ◌∷◌, length, arith, ltb, ◌==◌,
  if◌then◌else◌, Bool-cases, Option-cases, inl, inr, ==_iff,
}
use network_simulator_platfo.Common.Map.{Map, find, assign, nat_key}
use network_simulator_platfo.Common.Words.{add32}
use network_simulator_platfo.Breaker.{Readings}
use network_simulator_platfo.Router.Routes.{
  Topology, Labels, Links, Search, push, label, touch, relax, price, scan, expand, search, total,
  start, shortest,
}

length-push : (p : ℕ × ℕ) (h : List (ℕ × ℕ)) → length (push p h) ≡ suc (length h)
unfolding push
length-push p [] = refl
length-push p (q ∷ h) = ground (arith, length-push p h)

total-assign :
    (v d : ℕ) (m : Map ℕ ℕ) → d < label m v → total (assign v d m) + label m v ≡ total m + d
unfolding total assign label find
total-assign v d [] h = absurd (omega arith)
total-assign v d ((j, e) ∷ m) h = ground (arith, total-assign v d m, ==_iff j v)

total-assign_zero : (v : ℕ) (m : Map ℕ ℕ) → find v m ≡ none → total (assign v 0 m) ≡ total m
unfolding total assign find
total-assign_zero v [] h = omega arith
total-assign_zero v ((j, e) ∷ m) h = ground (arith, total-assign_zero v m)

total-touch : (v : ℕ) (m : Map ℕ ℕ) → total (touch m v) ≡ total m
unfolding touch
total-touch v m = elim (Option-cases (find v m)) [
  | inl e ↦ rw (e, touch) (total-assign_zero v m e)
  | inr (d, e) ↦ rw (e, touch) refl
]

-- What is left to do: it falls with every round, and no push raises it.
abbrev work : Labels → ℕ
work l = length l.min_heap + total l.distances

work-relax : (u d : ℕ) (l : Labels) (v c : ℕ) → work (relax u d l v c) ≤ work l
unfolding relax
work-relax u d l v c = ground (
  arith,
  length-push (add32 d c, v) l.min_heap,
  total-assign v (add32 d c) l.distances,
  total-touch v l.distances,
)

module _ (clock : ℕ → Readings) where
  work-scan :
      (source u d : ℕ) (s : Search) (edges : List (ℕ × ℕ))
      → work (scan clock source u d s edges).labels ≤ work s.labels
  unfolding scan
  work-scan source u d s [] = omega arith
  work-scan source u d s ((v, c) ∷ edges) =
      let p = if u == source then price clock s.links v c else (c, s.links) in
      omega (
        arith,
        work-relax u d s.labels v p.0,
        work-scan source u d (record { labels = relax u d s.labels v p.0; links = p.1 }) edges,
      )

  work-expand :
      (graph : Topology) (source : ℕ) (s : Search) (d u : ℕ)
      → work (expand clock graph source s d u).labels ≤ work s.labels
  unfolding expand
  work-expand graph source s d u = elim (Bool-cases (ltb (label s.labels.distances u) d)) [
    | inl stale ↦ rw (stale, expand) (omega arith)
    | inr fresh ↦ elim (Option-cases (find u graph)) [
      | inl e ↦ rw (fresh, e, expand) (omega arith)
      | inr (edges, e) ↦ rw (fresh, e, expand) (work-scan source u d s edges)
    ]
  ]

  search_ends :
      (fuel : ℕ) (graph : Topology) (source : ℕ) (s : Search)
      → work s.labels < fuel
      → (t : Search) × (search clock fuel graph source s ≡ some t)
  unfolding search
  search_ends zero graph source s h = absurd (omega arith)
  search_ends (suc fuel) graph source s h =
      after s.labels.min_heap refl (λ u. search_ends fuel graph source u)
    where
      after :
          (heap : List (ℕ × ℕ))
          → s.labels.min_heap ≡ heap
          → ((u : Search)
              → work u.labels < fuel
              → (t : Search) × (search clock fuel graph source u ≡ some t))
          → (t : Search) × (search clock (suc fuel) graph source s ≡ some t)
      after [] e ih = (s, simp (e, search))
      after ((d, u) ∷ heap) e ih =
          let popped : Search = record s { labels = record (s.labels) { min_heap = heap } } in
          rw (e, search)
            (ih (expand clock graph source popped d u)
              (omega (arith, work-expand graph source popped d u, ap length e)))

-- The search ends, whatever the topology, its costs and the breakers are: the heap is empty after as
-- many rounds as the sum of all the distances at its start counts, and one.
pub shortest_ends :
    (clock : ℕ → Readings) (graph : Topology) (source : ℕ) (k : Links)
    → (t : Search) × (shortest clock graph source k ≡ some t)
unfolding shortest
shortest_ends clock graph source k =
    search_ends clock (suc (work (start graph source k).labels)) graph source (start graph source k)
      (omega arith)
