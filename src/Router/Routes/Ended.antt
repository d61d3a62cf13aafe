-- ===== src/Router/Routes/Ended.antt =====
-- The state behind the search of `compute_routes` (core-engine/src/network/router.cpp): the parents are
-- a tree of shortest paths.
use mathlib.Core.List.{Memᴰ}
use mathlib.Core.List.Memᴰ
use native.Mathlib.Nat.{mul-le-mul_right}
use network_simulator_platfo.Common.{
  ℕ, zero, suc, ◌+◌, ◌*◌, ◌≤◌, ◌<◌, ◌≡◌, ◌≢◌, ◌⊎◌, inl, inr, refl, ◌∙◌, sym, ap, subst, true, some,
  List, [], ◌∷◌, arith, ◌==◌, length, Bool-cases, ==_iff, All_at,
}
use network_simulator_platfo.Common.Map.{find, nat_key}
use network_simulator_platfo.Breaker.{Readings}
use network_simulator_platfo.Router.Routes.{
  Topology, Links, Search, label, infinity, inflated, start, first_hop,
}
use network_simulator_platfo.Router.Routes.Invariant.{mem}
use network_simulator_platfo.Router.Routes.Settling.{IsChain}
use network_simulator_platfo.Router.Routes.Paths.{
  nodes, links_from, IsClosed, PathTo, here, onward, PathVia, first,
}
use network_simulator_platfo.Router.Routes.Outer.{IsRunning, closed_out}

module _ (clock : ℕ → Readings) (graph : Topology) (source : ℕ) (k : Links) (keys : List ℕ)
    (most : ℕ) (keys_are : keys ≡ nodes graph) (closed : IsClosed keys most graph)
    (dear : inflated ≤ most) (small : suc (length keys) * most < infinity)
    (there : mem source keys ≡ true) where
  abbrev out : ℕ → List (ℕ × ℕ)
  out = links_from clock graph source k

  abbrev room : length keys * most < infinity
  room = omega (arith, small)

  module _ (settled : List ℕ) (current : ℕ) (t : Search)
      (r : IsRunning clock graph source k keys most keys_are closed dear room settled current t)
      (empty : t.labels.min_heap ≡ []) where
    abbrev at : ℕ → ℕ
    at w = label t.labels.distances w

    pub ends : (w : ℕ) → mem w keys ≡ true → (at w ≡ infinity) ⊎ (mem w settled ≡ true)
    ends w e = elim (r.settling.searching.waiting w e) [
      | inl far ↦ inl far
      | inr (inl done) ↦ inr done
      | inr (inr m) ↦ absurd (Memᴰ.not-nil (subst (Memᴰ (at w, w)) empty m))
    ]

    pub bounded : length settled * most ≤ length keys * most
    bounded =
        mul-le-mul_right {m = length settled} {n = length keys} most
          (omega (arith, r.settling.counted))

    pub near : (w : ℕ) → mem w settled ≡ true → at w ≤ length settled * most
    near w e = omega (arith, r.settling.searching.low w e, r.settling.searching.reached)

    -- No path is shorter than the label, and a node that a path leads to is settled.
    pub no_shorter : {w c : ℕ} → PathTo out source w c → (at w ≤ c) × (mem w settled ≡ true)
    no_shorter here = (
      omega (arith, r.settling.searching.at_source),
      elim (ends source there) [
        | inl far ↦ absurd (omega (arith, far, r.settling.searching.at_source))
        | inr done ↦ done
      ],
    )
    no_shorter (onward {u} {v} {cost} {d} p link) =
        let (low, done) = no_shorter p in
        let relaxed = All_at _ (out u) (v, cost) (r.settling.relaxed u done) link in
        let ok =
          All_at _ (out u) (v, cost)
            (closed_out clock graph source k keys most keys_are closed dear room u
              (r.settling.known u done))
            link in
        (
          omega (arith, low, relaxed),
          elim (ends v ok.0) [
            | inl far ↦ absurd (omega (arith, far, relaxed, near u done, ok.1, bounded, small))
            | inr settled_v ↦ settled_v
          ],
        )

    -- The last link of a path to a node that was settled behind the source.
    last_link :
        (x p : ℕ)
        → mem x settled ≡ true
        → x ≢ source
        → find x t.labels.parent ≡ some p
        → (cost : ℕ) × Memᴰ (x, cost) (out p) × (at x ≡ at p + cost)
    last_link x p m other e = elim (r.settling.searching.parents x (r.settling.known x m)) [
      | inl far ↦ absurd (omega (arith, far, near x m, bounded, small))
      | inr (inl start) ↦ absurd (other start)
      | inr (inr (u, cost, e', done, link, sum)) ↦
          let same : u ≡ p = cc in
          (
            cost,
            subst (λ q. Memᴰ (x, cost) (out q)) same link,
            subst (λ q. at x ≡ at q + cost) same sum,
          )
    ]

    pub via :
        (rest : List ℕ)
        → ((w : ℕ) → mem w rest ≡ true → mem w settled ≡ true)
        → IsChain out source keys rest t.labels.parent
        → (w fuel : ℕ) → mem w rest ≡ true
        → w ≢ source
        → length rest ≤ fuel
        → (hop : ℕ) × (first_hop fuel t.labels.parent source w ≡ some hop)
          × PathVia out source hop w (at w)
    unfolding first_hop
    via [] sub c w fuel m other h = cc
    via (x ∷ rest) sub c w zero m other h = absurd (omega arith)
    via (x ∷ rest) sub c w (suc fuel) m other h = elim (Bool-cases (x == w)) [
      | inr behind ↦
          via rest (λ y e. sub y (ground (arith, e))) c.1 w (suc fuel) (ground (arith, m)) other
            (omega arith)
      | inl same ↦
          let x_is : x ≡ w = (==_iff x w).0 same in
          elim c.0 [
            | inl start ↦ absurd (other (sym x_is ∙ start))
            | inr (p, e, done) ↦
                let e_w : find w t.labels.parent ≡ some p =
                  subst (λ y. find y t.labels.parent ≡ some p) x_is e in
                let (cost, link, sum) = last_link w p (sub w m) other e_w in
                elim (Bool-cases (p == source)) [
                  | inl at_source ↦
                      let p_is : p ≡ source = (==_iff p source).0 at_source in
                      let total : cost ≡ at w =
                        omega (arith, sum, ap at p_is, r.settling.searching.at_source) in
                      (
                        w,
                        rw (e_w, at_source, first_hop) refl,
                        subst (PathVia out source w w) total
                            (first (subst (λ q. Memᴰ (w, cost) (out q)) p_is link)),
                      )
                  | inr more ↦
                      let (hop, found, path) =
                        via rest (λ y f. sub y (ground (arith, f))) c.1 p fuel done
                          (λ q. ground (arith, ==_iff p source)) (omega arith) in
                      (
                        hop,
                        rw (e_w, more, first_hop) found,
                        subst (PathVia out source hop w) (sym sum) (PathVia.onward path link),
                      )
                ]
          ]
    ]

    pub length-settled : length settled ≤ length keys
    length-settled = omega (arith, r.settling.counted)
