-- ===== src/Router/Routes/Invariant.antt =====
-- What holds between the rounds of the search of `compute_routes`
-- (core-engine/src/network/router.cpp).
use mathlib.Core.List.{Memᴰ}
use network_simulator_platfo.Common.{
  ℕ, ◌+◌, ◌≤◌, ◌<◌, ◌≡◌, ◌⊎◌, inl, inr, refl, ◌∙◌, sym, ap, Bool, true, false, none, some, List, [],
  ◌∷◌, All, ◌==◌, ◌||◌, if◌then◌else◌, Bool-cases, Option-cases, ==_iff,
}
use network_simulator_platfo.Common.Map.{Map, find, assign, nat_key, find-assign}
use network_simulator_platfo.Router.Routes.{Labels, label, touch, infinity}
use network_simulator_platfo.Router.Routes.Heap.{IsOrdered}

abbrev pub mem : ℕ → List ℕ → Bool
mem v [] = false
mem v (w ∷ ws) = (w == v) || mem v ws

pub label-assign :
    (v d w : ℕ) (m : Map ℕ ℕ) → label (assign v d m) w ≡ (if v == w then d else label m w)
unfolding label
label-assign v d w m = rw (find-assign v w d m, label) (cases (v == w))
  where
    cases :
        (b : Bool)
        → elim (if b then some d else find w m) [ none ↦ 0 | some e ↦ e ]
          ≡ (if b then d else elim (find w m) [ none ↦ 0 | some e ↦ e ])
    cases true = refl
    cases false = refl

pub label-touch : (v w : ℕ) (m : Map ℕ ℕ) → label (touch m v) w ≡ label m w
unfolding touch label
label-touch v w m = elim (Option-cases (find v m)) [
  | inr (d, e) ↦ rw (e, touch) refl
  | inl e ↦ rw (e, touch) (label-assign v 0 w m ∙ same e)
]
  where
    missing : find v m ≡ none → label m v ≡ 0
    missing e = rw (e, label) refl

    same : find v m ≡ none → (if v == w then 0 else label m w) ≡ label m w
    same e = elim (Bool-cases (v == w)) [
      | inl k ↦ rw k (sym (missing e) ∙ ap (label m) ((==_iff v w).0 k))
      | inr k ↦ rw k refl
    ]

module _ (out : ℕ → List (ℕ × ℕ)) (source : ℕ) (keys : List ℕ) where
  -- The parent of a node that has a distance: the last link of a path, from a node that is settled.
  abbrev pub HasParent : List ℕ → Labels → ℕ → Type 0
  HasParent settled l w =
      (u : ℕ) × (c : ℕ) × (find w l.parent ≡ some u)
      × (mem u settled ≡ true)
      × Memᴰ (w, c) (out u)
      × (label l.distances w ≡ label l.distances u + c)

  -- A pair of the heap: no less than the node's distance and than the pairs that have gone, and
  -- stale where the node is settled.
  abbrev pub IsQueued : List ℕ → ℕ → ℕ → Labels → ℕ × ℕ → Type 0
  IsQueued settled current bound l q =
      (mem q.1 keys ≡ true)
      × (label l.distances q.1 ≤ q.0)
      × (current ≤ q.0)
      × (q.0 ≤ bound)
      × ((mem q.1 settled ≡ false) ⊎ (label l.distances q.1 < q.0))

  pub record IsSearching (settled : List ℕ) (current bound : ℕ) (l : Labels) : Type 0 where
    pub reached : current ≤ bound
    pub at_source : label l.distances source ≡ 0
    pub bounded : (w : ℕ) → (label l.distances w ≡ infinity) ⊎ (label l.distances w ≤ bound)
    pub heap : All (IsQueued settled current bound l) l.min_heap
    pub ordered : IsOrdered l.min_heap
    pub low : (w : ℕ) → mem w settled ≡ true → label l.distances w ≤ current
    pub waiting :
        (w : ℕ)
        → mem w keys ≡ true
        → (label l.distances w ≡ infinity)
          ⊎ ((mem w settled ≡ true) ⊎ Memᴰ (label l.distances w, w) l.min_heap)
    pub parents :
        (w : ℕ)
        → mem w keys ≡ true
        → (label l.distances w ≡ infinity) ⊎ ((w ≡ source) ⊎ HasParent settled l w)

  -- What one round of the inner loop does.
  pub record Relaxed (settled : List ℕ) (current bound v cost : ℕ) (l l' : Labels) : Type 0 where
    pub kept : IsSearching settled current bound l'
    pub falls : (w : ℕ) → label l'.distances w ≤ label l.distances w
    pub settled_stay : (w : ℕ) → mem w settled ≡ true → label l'.distances w ≡ label l.distances w
    pub parents_stay : (w : ℕ) → mem w settled ≡ true → find w l'.parent ≡ find w l.parent
    pub short : label l'.distances v ≤ current + cost
