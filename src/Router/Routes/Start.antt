-- ===== src/Router/Routes/Start.antt =====
-- The state in front of the search of `compute_routes` (core-engine/src/network/router.cpp).
use mathlib.Core.List.{Memᴰ}
use mathlib.Core.Path.{ap₂}
use network_simulator_platfo.Common.{
  ℕ, suc, ◌*◌, ◌≤◌, ◌<◌, ◌≡◌, ◌⊎◌, inl, inr, refl, ◌∙◌, sym, subst, true, false, List, [], ◌∷◌,
  arith, ◌==◌, length, if◌then◌else◌, Bool-cases, ==_iff,
}
use network_simulator_platfo.Common.Map.{find, nat_key}
use network_simulator_platfo.Breaker.{Readings}
use network_simulator_platfo.Router.Routes.{
  Topology, Links, label, infinity, inflated, unreached, start, push,
}
use network_simulator_platfo.Router.Routes.Invariant.{mem, label-assign}
use network_simulator_platfo.Router.Routes.Settling.{unsettled}
use network_simulator_platfo.Router.Routes.Paths.{nodes, links_from, IsClosed}
use network_simulator_platfo.Router.Routes.Outer.{IsRunning}

label-unreached :
    (graph : Topology) (w : ℕ)
    → ((label (unreached graph) w ≡ infinity) × (mem w (nodes graph) ≡ true))
      ⊎ ((label (unreached graph) w ≡ 0) × (mem w (nodes graph) ≡ false))
unfolding unreached label find
label-unreached [] w = inr (refl, refl)
label-unreached ((v, edges) ∷ graph) w =
    ground (arith, label-assign v infinity w (unreached graph), label-unreached graph w)

unsettled-none : (keys : List ℕ) → unsettled [] keys ≤ length keys
unsettled-none [] = omega arith
unsettled-none (k ∷ keys) = omega (arith, unsettled-none keys)

module _ (clock : ℕ → Readings) (graph : Topology) (source : ℕ) (k : Links) (keys : List ℕ)
    (most : ℕ) (keys_are : keys ≡ nodes graph) (closed : IsClosed keys most graph)
    (dear : inflated ≤ most) (small : suc (length keys) * most < infinity)
    (there : mem source keys ≡ true) where
  abbrev out : ℕ → List (ℕ × ℕ)
  out = links_from clock graph source k

  at_start :
      (w : ℕ)
      → label (start graph source k).labels.distances w
        ≡ (if source == w then 0 else label (unreached graph) w)
  unfolding start
  at_start w = label-assign source 0 w (unreached graph)

  far :
      (w : ℕ)
      → mem w keys ≡ true
      → (source == w) ≡ false
      → label (start graph source k).labels.distances w ≡ infinity
  far w e other =
      let known : mem w (nodes graph) ≡ true = subst (λ ks. mem w ks ≡ true) keys_are e in
      at_start w ∙ ground (arith, label-unreached graph w)

  pub start-IsRunning :
      IsRunning clock graph source k keys most keys_are closed dear
        (omega (arith, small))
        []
        0
        (start graph source k)
  unfolding start push
  start-IsRunning = record {
    settling = record {
      searching = record {
        reached = omega arith;
        at_source = ground (arith, at_start source, ==_iff source source);
        bounded = λ w. ground (arith, at_start w, label-unreached graph w);
        heap = (
          (
            there,
            ground (arith, at_start source, ==_iff source source),
            omega arith,
            omega arith,
            inl refl,
          ),
          tt,
        );
        ordered = (tt, tt);
        low = λ w e. cc;
        waiting = λ w e. elim (Bool-cases (source == w)) [
          | inr other ↦ inl (far w e other)
          | inl same ↦ inr (
              inr (
                Memᴰ.head (
                  ap₂ (λ d x. (d, x)) (at_start w ∙ rw same refl)
                    (sym ((==_iff source w).0 same)))))
        ];
        parents = λ w e. elim (Bool-cases (source == w)) [
          | inr other ↦ inl (far w e other)
          | inl same ↦ inr (inl (sym ((==_iff source w).0 same)))
        ];
      };
      relaxed = λ u e. cc;
      chain = tt;
      counted = omega (arith, unsettled-none keys);
      known = λ u e. cc;
    };
    unasked = inr refl;
  }
