-- ===== src/Router/Routes/Outer.antt =====
-- The outer loop of `compute_routes` (core-engine/src/network/router.cpp) from its start to its end.
use network_simulator_platfo.Common.{
  ℕ, zero, suc, ◌*◌, ◌≤◌, ◌<◌, ◌≡◌, ◌⊎◌, inl, inr, refl, ◌∙◌, sym, ap, subst, true, false, some,
  List, [], ◌∷◌, All, arith, ltb, ◌==◌, length, if◌then◌else◌, Bool-cases, Option-cases, ==_iff,
}
use network_simulator_platfo.Common.Map.{find, nat_key}
use network_simulator_platfo.Breaker.{Readings}
use network_simulator_platfo.Router.Routes.{
  Topology, Links, Search, label, relax, infinity, inflated, price, scan, expand, search,
}
use network_simulator_platfo.Router.Routes.Heap.{Heap}
use network_simulator_platfo.Router.Routes.Invariant.{mem}
use network_simulator_platfo.Router.Routes.Settling.{IsSettling, relax_all}
use network_simulator_platfo.Router.Routes.Rounds.{
  without_top, drop-IsSettling, settle-IsSettling, not_settled, first,
}
use network_simulator_platfo.Router.Routes.Paths.{nodes, edges_of, prices, links_from, IsClosed}

module _ (clock : ℕ → Readings) where
  scan-relax_all :
      (source u d : ℕ) (s : Search) (edges : List (ℕ × ℕ))
      → (scan clock source u d s edges).labels
        ≡ relax_all u d s.labels (if u == source then prices clock s.links edges else edges)
  unfolding scan relax_all prices
  scan-relax_all source u d s [] = elim (Bool-cases (u == source)) [
    | inl e ↦ rw e refl
    | inr e ↦ rw e refl
  ]
  scan-relax_all source u d s ((v, c) ∷ edges) = elim (Bool-cases (u == source)) [
    | inl e ↦
        rw (e, scan)
          (scan-relax_all source u d
              (record {
                labels = relax u d s.labels v (price clock s.links v c).0;
                links = (price clock s.links v c).1;
              })
              edges
            ∙ rw e refl)
    | inr e ↦
        rw (e, scan)
          (scan-relax_all source u d (record { labels = relax u d s.labels v c; links = s.links })
              edges
            ∙ rw e refl)
  ]

  scan-links :
      (source u d : ℕ) (s : Search) (edges : List (ℕ × ℕ))
      → (u == source) ≡ false
      → (scan clock source u d s edges).links ≡ s.links
  unfolding scan
  scan-links source u d s [] e = refl
  scan-links source u d s ((v, c) ∷ edges) e =
      rw (e, scan)
        (scan-links source u d (record { labels = relax u d s.labels v c; links = s.links }) edges
          e)

price-bound :
    (clock : ℕ → Readings) (k : Links) (v c most : ℕ)
    → inflated ≤ most
    → c ≤ most
    → (price clock k v c).0 ≤ most
unfolding price
price-bound clock k v c most h b = elim (Option-cases (find v k.breakers)) [
  | inl e ↦ rw (e, price) b
  | inr (br, e) ↦ rw (e, price) (ground arith)
]

prices-bound :
    (clock : ℕ → Readings) (keys : List ℕ) (k : Links) (edges : List (ℕ × ℕ)) (most : ℕ)
    → inflated ≤ most
    → All (λ e. (mem e.0 keys ≡ true) × (e.1 ≤ most)) edges
    → All (λ e. (mem e.0 keys ≡ true) × (e.1 ≤ most)) (prices clock k edges)
unfolding prices
prices-bound clock keys k [] most h a = tt
prices-bound clock keys k ((v, c) ∷ edges) most h a = (
  (a.0.0, price-bound clock k v c most h a.0.1),
  prices-bound clock keys (price clock k v c).1 edges most h a.1,
)

edges_of-bound :
    (keys : List ℕ) (most : ℕ) (graph : Topology) (u : ℕ)
    → IsClosed keys most graph
    → All (λ e. (mem e.0 keys ≡ true) × (e.1 ≤ most)) (edges_of graph u)
unfolding find
edges_of-bound keys most [] u a = tt
edges_of-bound keys most ((w, edges) ∷ graph) u a = elim (Bool-cases (w == u)) [
  | inl e ↦ rw e a.0
  | inr e ↦ rw e (edges_of-bound keys most graph u a.1)
]

find-edges_of :
    (graph : Topology) (u : ℕ) → mem u (nodes graph) ≡ true → find u graph ≡ some (edges_of graph u)
unfolding find
find-edges_of [] u h = cc
find-edges_of ((w, edges) ∷ graph) u h = elim (Bool-cases (w == u)) [
  | inl e ↦ rw e refl
  | inr e ↦ rw e (find-edges_of graph u (ground arith))
]

module _ (clock : ℕ → Readings) (graph : Topology) (source : ℕ) (k : Links) (keys : List ℕ)
    (most : ℕ) (keys_are : keys ≡ nodes graph) (closed : IsClosed keys most graph)
    (dear : inflated ≤ most) (small : length keys * most < infinity) where
  abbrev out : ℕ → List (ℕ × ℕ)
  out = links_from clock graph source k

  pub closed_out :
      (w : ℕ) → mem w keys ≡ true → All (λ e. (mem e.0 keys ≡ true) × (e.1 ≤ most)) (out w)
  closed_out w h = elim (Bool-cases (w == source)) [
    | inl e ↦ rw e (
        prices-bound clock keys k (edges_of graph w) most dear
          (edges_of-bound keys most graph w closed))
    | inr e ↦ rw e (edges_of-bound keys most graph w closed)
  ]

  -- What holds between two rounds, with the breakers, which only the source's round asks.
  pub record IsRunning (settled : List ℕ) (current : ℕ) (s : Search) : Type 0 where
    pub settling : IsSettling out source keys most settled current s.labels
    pub unasked : (mem source settled ≡ true) ⊎ (s.links ≡ k)

  abbrev pop : Search → Heap → Search
  pop s h = record s { labels = without_top s.labels h }

  fresh_labels :
      (settled : List ℕ) (current d u : ℕ) (h : Heap) (s : Search)
      → IsRunning settled current s
      → mem u settled ≡ false
      → (scan clock source u d (pop s h) (edges_of graph u)).labels
        ≡ relax_all u d (without_top s.labels h) (out u)
  fresh_labels settled current d u h s r new =
      scan-relax_all clock source u d (pop s h) (edges_of graph u)
      ∙ ap (relax_all u d (without_top s.labels h)) same
    where
      same :
          (if u == source then prices clock s.links (edges_of graph u) else edges_of graph u)
          ≡ out u
      same = elim (Bool-cases (u == source)) [
        | inr e ↦ rw e refl
        | inl e ↦ rw e (elim r.unasked [
          | inl done ↦ absurd (ground (arith, ==_iff u source))
          | inr kept ↦ ap (λ j. prices clock j (edges_of graph u)) kept
        ])
      ]

  fresh_links :
      (settled : List ℕ) (current d u : ℕ) (h : Heap) (s : Search)
      → IsRunning settled current s
      → (mem source (u ∷ settled) ≡ true)
        ⊎ ((scan clock source u d (pop s h) (edges_of graph u)).links ≡ k)
  fresh_links settled current d u h s r = elim (Bool-cases (u == source)) [
    | inl e ↦ inl (rw e refl)
    | inr e ↦ elim r.unasked [
      | inl done ↦ inl (ground (arith, done))
      | inr kept ↦ inr (scan-links clock source u d (pop s h) (edges_of graph u) e ∙ kept)
    ]
  ]

  expand-IsRunning :
      (settled : List ℕ) (current d u : ℕ) (h : Heap) (s : Search)
      → s.labels.min_heap ≡ (d, u) ∷ h
      → IsRunning settled current s
      → (settled' : List ℕ) × IsRunning settled' d (expand clock graph source (pop s h) d u)
  unfolding expand
  expand-IsRunning settled current d u h s top r =
      elim (Bool-cases (ltb (label s.labels.distances u) d)) [
        | inl stale ↦ (
          settled,
          rw (stale, expand)
              (record {
                settling =
                    drop-IsSettling out source keys most settled current d u h s.labels top
                      r.settling (ground arith);
                unasked = r.unasked;
              }),
        )
        | inr fresh ↦
            let least : d ≤ label s.labels.distances u = ground arith in
            let new =
              not_settled out source keys most settled current d u h s.labels top r.settling least
                small closed_out in
            let key = first out source keys most settled current d u h s.labels top r.settling in
            let found = find-edges_of graph u (subst (λ ks. mem u ks ≡ true) keys_are key.0) in
            (
              u ∷ settled,
              rw (fresh, found, expand)
                  (record {
                    settling =
                        subst (IsSettling out source keys most (u ∷ settled) d)
                          (sym (fresh_labels settled current d u h s r new))
                          (settle-IsSettling out source keys most settled current d u h s.labels top
                            r.settling least small closed_out);
                    unasked = fresh_links settled current d u h s r;
                  }),
            )
      ]

  pub search-IsRunning :
      (fuel : ℕ) (settled : List ℕ) (current : ℕ) (s t : Search)
      → IsRunning settled current s
      → search clock fuel graph source s ≡ some t
      → (settled' : List ℕ) × (current' : ℕ) × IsRunning settled' current' t
        × (t.labels.min_heap ≡ [])
  unfolding search
  search-IsRunning zero settled current s t r e = cc
  search-IsRunning (suc fuel) settled current s t r e =
      after s.labels.min_heap refl (search-IsRunning fuel)
    where
      after :
          (heap : Heap)
          → s.labels.min_heap ≡ heap
          → ((settled : List ℕ) (current : ℕ) (s t : Search)
              → IsRunning settled current s
              → search clock fuel graph source s ≡ some t
              → (settled' : List ℕ) × (current' : ℕ) × IsRunning settled' current' t
                × (t.labels.min_heap ≡ []))
          → (settled' : List ℕ) × (current' : ℕ) × IsRunning settled' current' t
            × (t.labels.min_heap ≡ [])
      after [] top ih =
          let ends : some s ≡ some t = simp (top, search) at e in
          let same : s ≡ t = cc in
          (
            settled,
            current,
            subst (IsRunning settled current) same r,
            ap (λ u. u.labels.min_heap) (sym same) ∙ top,
          )
      after ((d, u) ∷ heap) top ih =
          let (settled', r') = expand-IsRunning settled current d u heap s top r in
          ih settled' d (expand clock graph source (pop s heap) d u) t r' (rw (top, search) at e)
