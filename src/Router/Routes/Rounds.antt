-- ===== src/Router/Routes/Rounds.antt =====
-- A pop of the outer loop of `compute_routes` (core-engine/src/network/router.cpp) settles a node, or
-- drops a stale pair.
use mathlib.Core.List.{Memᴰ}
use mathlib.Core.List.Memᴰ
use native.Mathlib.Nat.{mul-le-mul_right}
use network_simulator_platfo.Common.{
  ℕ, suc, ◌+◌, ◌*◌, ◌≤◌, ◌<◌, ◌≡◌, ◌⊎◌, inl, inr, ◌∙◌, ap, subst, true, false, List, ◌∷◌, All,
  arith, ◌==◌, length, Bool-cases, ==_iff, All_map, All_of, All_at,
}
use network_simulator_platfo.Common.Map.{nat_key}
use network_simulator_platfo.Router.Routes.{Labels, before, label, infinity}
use network_simulator_platfo.Router.Routes.Heap.{Heap, IsOrdered}
use network_simulator_platfo.Router.Routes.Invariant.{mem, IsQueued, IsSearching}
use network_simulator_platfo.Router.Routes.Settling.{
  IsSettling, IsChain-stays, relax_all, relax_all-Scanned, unsettled, unsettled-settle, IsLink,
}

abbrev pub without_top : Labels → Heap → Labels
without_top l h = record l { min_heap = h }

module _ (out : ℕ → List (ℕ × ℕ)) (source : ℕ) (keys : List ℕ) (most : ℕ) (settled : List ℕ)
    (current d u : ℕ) (h : Heap) (l : Labels) (top : l.min_heap ≡ (d, u) ∷ h)
    (s : IsSettling out source keys most settled current l) where
  pub first : IsQueued out source keys settled current (length settled * most) l (d, u)
  first =
      (subst (All (IsQueued out source keys settled current (length settled * most) l)) top
        s.searching.heap).0

  others : All (IsQueued out source keys settled current (length settled * most) l) h
  others =
      (subst (All (IsQueued out source keys settled current (length settled * most) l)) top
        s.searching.heap).1

  order : All (λ q. before (d, u) q ≡ true) h × IsOrdered h
  order = subst IsOrdered top s.searching.ordered

  queued_in :
      (w : ℕ)
      → Memᴰ (label l.distances w, w) l.min_heap
      → ((w ≡ u) × (label l.distances w ≡ d)) ⊎ Memᴰ (label l.distances w, w) h
  queued_in w m = elim (Memᴰ.cases_cons (subst (Memᴰ (label l.distances w, w)) top m)) [
    | inl here ↦ inl (ap (λ q. q.1) here, ap (λ q. q.0) here)
    | inr there ↦ inr there
  ]

  both :
      All
        (λ q.
          IsQueued out source keys settled current (length settled * most) l q
          × (before (d, u) q ≡ true))
        h
  both = All_of _ h (λ q m. (All_at _ h q others m, All_at _ h q order.0 m))

  -- A stale pair is dropped.
  pub drop-IsSettling :
      label l.distances u < d → IsSettling out source keys most settled d (without_top l h)
  drop-IsSettling stale = record {
    searching = record {
      reached = omega (arith, first);
      at_source = s.searching.at_source;
      bounded = s.searching.bounded;
      heap = All_map h (λ q a. ground (arith, a)) both;
      ordered = order.1;
      low = λ w e. omega (arith, s.searching.low w e, first);
      waiting = λ w e. elim (s.searching.waiting w e) [
        | inl far ↦ inl far
        | inr (inl done) ↦ inr (inl done)
        | inr (inr m) ↦ elim (queued_in w m) [
          | inl (same, at_d) ↦ absurd (omega (arith, ap (label l.distances) same))
          | inr there ↦ inr (inr there)
        ]
      ];
      parents = s.searching.parents;
    };
    relaxed = s.relaxed;
    chain = s.chain;
    counted = s.counted;
    known = s.known;
  }

  module _ (fresh : d ≤ label l.distances u) (small : length keys * most < infinity)
      (closed_out : (w : ℕ)
        → mem w keys ≡ true
        → All (λ e. (mem e.0 keys ≡ true) × (e.1 ≤ most)) (out w)) where
    at_u : label l.distances u ≡ d
    at_u = omega (arith, first)

    pub not_settled : mem u settled ≡ false
    not_settled = ground (arith, first)

    count : suc (length settled) + unsettled (u ∷ settled) keys ≤ length keys
    count = omega (arith, s.counted, unsettled-settle u settled keys first.0 not_settled)

    room : suc (length settled) * most < infinity
    room = omega (
      arith,
      small,
      mul-le-mul_right {m = suc (length settled)} {n = length keys} most (omega (arith, count)),
    )

    popped-IsSearching :
        IsSearching out source keys (u ∷ settled) d (suc (length settled) * most) (without_top l h)
    popped-IsSearching = record {
      reached = omega (arith, first);
      at_source = s.searching.at_source;
      bounded = λ w. ground (arith, s.searching.bounded w);
      heap = All_map h (λ q a. ground (arith, a, at_u, ==_iff u q.1)) both;
      ordered = order.1;
      low = λ w e. ground (arith, s.searching.low w, at_u, ==_iff u w, first);
      waiting = λ w e. elim (s.searching.waiting w e) [
        | inl far ↦ inl far
        | inr (inl done) ↦ inr (inl (ground (arith, done)))
        | inr (inr m) ↦ elim (queued_in w m) [
          | inl (same, at_d) ↦ inr (inl (ground (arith, ==_iff u w, same)))
          | inr there ↦ inr (inr there)
        ]
      ];
      parents = λ w e. elim (s.searching.parents w e) [
        | inl far ↦ inl far
        | inr (inl start) ↦ inr (inl start)
        | inr (inr (x, c, p, done, k, t)) ↦ inr (inr (x, c, p, ground (arith, done), k, t))
      ];
    }

    links : All (IsLink out source keys u d (suc (length settled) * most)) (out u)
    links = All_of _ (out u) (λ e m.
        let a = All_at _ (out u) e (closed_out u first.0) m in (a.0, omega (arith, a.1, first), m))

    pub settle-IsSettling :
        IsSettling out source keys most (u ∷ settled) d (relax_all u d (without_top l h) (out u))
    settle-IsSettling =
        let here : mem u (u ∷ settled) ≡ true = ground (arith, ==_iff u u) in
        let popped = without_top l h in
        let t =
          relax_all-Scanned out source keys (u ∷ settled) u d (suc (length settled) * most) (out u)
            popped popped-IsSearching here at_u room links in
        let l' = relax_all u d popped (out u) in
        let of_u : (w : ℕ)
            → u ≡ w
            → All (λ e. label l'.distances e.0 ≤ label l'.distances w + e.1) (out w) =
          λ w e.
            subst (λ x. All (λ e. label l'.distances e.0 ≤ label l'.distances x + e.1) (out x)) e
              (All_of _ (out u) (λ e m.
                omega (arith, All_at _ (out u) e t.short m, t.settled_stay u here, at_u))) in
        let of_other : (w : ℕ)
            → mem w settled ≡ true
            → All (λ e. label l'.distances e.0 ≤ label l'.distances w + e.1) (out w) =
          λ w k. All_of _ (out w) (λ e m. omega (
            arith,
            All_at _ (out w) e (s.relaxed w k) m,
            t.falls e.0,
            t.settled_stay w (ground (arith, k)),
          )) in
        record {
          searching = t.kept;
          relaxed = λ w e. elim (Bool-cases (u == w)) [
            | inl same ↦ of_u w ((==_iff u w).0 same)
            | inr other ↦ of_other w (ground (arith, e))
          ];
          chain = (
            elim (s.searching.parents u first.0) [
              | inl far ↦ absurd (omega (arith, far, first, room))
              | inr (inl start) ↦ inl start
              | inr (inr (x, c, p, done, k, e)) ↦ inr (x, t.parents_stay u here ∙ p, done)
            ],
            IsChain-stays out source keys settled settled l.parent l'.parent (λ w e. e)
                (λ w e. t.parents_stay w (ground (arith, e))) s.chain,
          );
          counted = count;
          known = λ w e. ground (arith, s.known w, first, ==_iff u w);
        }
