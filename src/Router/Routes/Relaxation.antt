-- ===== src/Router/Routes/Relaxation.antt =====
-- What the inner loop of `compute_routes` (core-engine/src/network/router.cpp) keeps of the distances,
-- the parents and the heap, where no sum of costs wraps.
use mathlib.Core.List.{Memᴰ}
use mathlib.Core.Path.{ap₂}
use network_simulator_platfo.Common.{
  ℕ, ◌+◌, ◌≤◌, ◌<◌, ◌≡◌, ◌⊎◌, inl, inr, refl, ◌∙◌, sym, subst, true, false, List, All, arith, ltb,
  ◌==◌, if◌then◌else◌, Bool-cases, ==_iff, All_map,
}
use network_simulator_platfo.Common.Map.{find, assign, nat_key, find-assign}
use network_simulator_platfo.Common.Words.{add32}
use network_simulator_platfo.Router.Routes.{Labels, push, label, touch, relax, infinity}
use network_simulator_platfo.Router.Routes.Heap.{
  IsOrdered, All-push, Memᴰ-push_self, Memᴰ-push_other, push-IsOrdered,
}
use network_simulator_platfo.Router.Routes.Invariant.{
  mem, label-assign, label-touch, HasParent, IsQueued, IsSearching, Relaxed,
}

module _ (out : ℕ → List (ℕ × ℕ)) (source : ℕ) (keys : List ℕ) where
  module _ (settled : List ℕ) (u current bound v cost : ℕ) (l : Labels)
      (s : IsSearching out source keys settled current bound l) (here : mem u settled ≡ true)
      (at_u : label l.distances u ≡ current) (known : mem v keys ≡ true)
      (fits : current + cost ≤ bound) (small : bound < infinity)
      (link : Memᴰ (v, cost) (out u)) where
    sum : add32 current cost ≡ current + cost
    sum = omega arith

    -- The node is not settled where its distance falls.
    unsettled : current + cost < label l.distances v → mem v settled ≡ false
    unsettled less = elim (Bool-cases (mem v settled)) [
      | inl e ↦ absurd (omega (arith, s.low v e))
      | inr e ↦ e
    ]

    lowered : Labels
    lowered = record {
      distances = assign v (current + cost) l.distances;
      parent = assign v u l.parent;
      min_heap = push (current + cost, v) l.min_heap;
    }

    at :
        (w : ℕ)
        → label lowered.distances w ≡ (if v == w then current + cost else label l.distances w)
    unfolding lowered
    at w = label-assign v (current + cost) w l.distances

    stays :
        current + cost < label l.distances v
        → (w : ℕ) → mem w settled ≡ true
        → label lowered.distances w ≡ label l.distances w
    stays less w e = ground (arith, at w, ==_iff v w, unsettled less)

    parent_stays :
        current + cost < label l.distances v
        → (w : ℕ) → mem w settled ≡ true
        → find w lowered.parent ≡ find w l.parent
    unfolding lowered
    parent_stays less w e = find-assign v w u l.parent ∙ ground (arith, ==_iff v w, unsettled less)

    lowered_heap :
        current + cost < label l.distances v
        → All (IsQueued out source keys settled current bound lowered) lowered.min_heap
    unfolding lowered
    lowered_heap less =
        All-push (IsQueued out source keys settled current bound lowered) (current + cost, v)
          l.min_heap
          (known, ground (arith, at v, ==_iff v v), omega arith, fits, inl (unsettled less))
          (All_map l.min_heap (λ q a. ground (arith, at q.1, ==_iff v q.1, a)) s.heap)

    lowered_order : current + cost < label l.distances v → IsOrdered lowered.min_heap
    unfolding lowered
    lowered_order less =
        push-IsOrdered (current + cost, v) l.min_heap
          (All_map l.min_heap (λ q a. ground (arith, ==_iff q.1 v, a)) s.heap) s.ordered

    lowered_waiting :
        (w : ℕ)
        → mem w keys ≡ true
        → (label lowered.distances w ≡ infinity)
          ⊎ ((mem w settled ≡ true) ⊎ Memᴰ (label lowered.distances w, w) lowered.min_heap)
    unfolding lowered
    lowered_waiting w e = elim (Bool-cases (v == w)) [
      | inl here ↦
          let same : v ≡ w = (==_iff v w).0 here in
          let new : label lowered.distances w ≡ current + cost = ground (arith, at w) in
          inr (
            inr (
              subst (λ (q : ℕ × ℕ). Memᴰ q (push (current + cost, v) l.min_heap))
                (ap₂ (λ d x. (d, x)) (sym new) same)
                (Memᴰ-push_self (current + cost, v) l.min_heap)))
      | inr other ↦
          let old : label lowered.distances w ≡ label l.distances w = ground (arith, at w) in
          rw old (elim (s.waiting w e) [
            | inl far ↦ inl far
            | inr (inl done) ↦ inr (inl done)
            | inr (inr queued) ↦ inr (inr (Memᴰ-push_other (current + cost, v) _ l.min_heap queued))
          ])
    ]

    lowered_parents :
        current + cost < label l.distances v
        → (w : ℕ) → mem w keys ≡ true
        → (label lowered.distances w ≡ infinity)
          ⊎ ((w ≡ source) ⊎ HasParent out source keys settled lowered w)
    unfolding lowered
    lowered_parents less w e = elim (Bool-cases (v == w)) [
      | inl this ↦
          let same : v ≡ w = (==_iff v w).0 this in
          inr (
            inr (
              u,
              cost,
              find-assign v w u l.parent ∙ rw this,
              here,
              subst (λ x. Memᴰ (x, cost) (out u)) same link,
              ground (arith, at w, stays less u here),
            ))
      | inr other ↦
          let old : label lowered.distances w ≡ label l.distances w = ground (arith, at w) in
          elim (s.parents w e) [
            | inl far ↦ inl (old ∙ far)
            | inr (inl first) ↦ inr (inl first)
            | inr (inr (x, c, p, done, k, d)) ↦ inr (
                inr (
                  x,
                  c,
                  find-assign v w u l.parent ∙ rw other p,
                  done,
                  k,
                  omega (arith, old, d, stays less x done),
                ))
          ]
    ]

    lowered-Relaxed :
        current + cost < label l.distances v
        → Relaxed out source keys settled current bound v cost l lowered
    lowered-Relaxed less = record {
      kept = record {
        reached = s.reached;
        at_source = ground (arith, at source, ==_iff v source, s.at_source);
        bounded = λ w. ground (arith, at w, s.bounded w);
        heap = lowered_heap less;
        ordered = lowered_order less;
        low = λ w e. omega (arith, stays less w e, s.low w e);
        waiting = lowered_waiting;
        parents = lowered_parents less;
      };
      falls = λ w. ground (arith, at w, ==_iff v w);
      settled_stay = stays less;
      parents_stay = parent_stays less;
      short = ground (arith, at v, ==_iff v v);
    }

    touched : Labels
    touched = record l { distances = touch l.distances v }

    touched-Relaxed :
        label l.distances v ≤ current + cost
        → Relaxed out source keys settled current bound v cost l touched
    unfolding touched
    touched-Relaxed enough =
        let same = λ (w : ℕ). label-touch v w l.distances in
        record {
          kept = record {
            reached = s.reached;
            at_source = same source ∙ s.at_source;
            bounded = λ w. rw (same w) (s.bounded w);
            heap = All_map l.min_heap (λ q a. rw (same q.1) a) s.heap;
            ordered = s.ordered;
            low = λ w e. rw (same w) (s.low w e);
            waiting = λ w e. rw (same w) (s.waiting w e);
            parents = λ w e. elim (s.parents w e) [
              | inl far ↦ inl (same w ∙ far)
              | inr (inl first) ↦ inr (inl first)
              | inr (inr (x, c, p, done, k, d)) ↦
                  inr (inr (x, c, p, done, k, omega (arith, same w, same x, d)))
            ];
          };
          falls = λ w. omega (arith, same w);
          settled_stay = λ w e. same w;
          parents_stay = λ w e. refl;
          short = omega (arith, same v);
        }

    pub relax-Relaxed :
        Relaxed out source keys settled current bound v cost l (relax u current l v cost)
    unfolding relax touched lowered
    relax-Relaxed = elim (Bool-cases (ltb (current + cost) (label l.distances v))) [
      | inl less ↦ rw (sum, less, relax) (lowered-Relaxed (ground arith))
      | inr enough ↦ rw (sum, enough, relax) (touched-Relaxed (ground arith))
    ]
