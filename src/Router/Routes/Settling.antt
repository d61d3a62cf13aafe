-- ===== src/Router/Routes/Settling.antt =====
-- What a round of the outer loop of `compute_routes` (core-engine/src/network/router.cpp) keeps.
use mathlib.Core.List.{Memᴰ}
use network_simulator_platfo.Common.{
  ℕ, suc, ◌+◌, ◌*◌, ◌≤◌, ◌<◌, ◌≡◌, ◌⊎◌, inl, inr, refl, ◌∙◌, true, false, some, List, [], ◌∷◌, All,
  arith, length, if◌then◌else◌, ==_iff,
}
use network_simulator_platfo.Common.Map.{Map, find, nat_key}
use network_simulator_platfo.Router.Routes.{Labels, label, relax, infinity}
use network_simulator_platfo.Router.Routes.Relaxation.{relax-Relaxed}
use network_simulator_platfo.Router.Routes.Invariant.{mem, IsSearching}

-- The inner loop without the breakers.
unfoldable pub relax_all : ℕ → ℕ → Labels → List (ℕ × ℕ) → Labels
relax_all u current l [] = l
relax_all u current l ((v, cost) ∷ edges) = relax_all u current (relax u current l v cost) edges

-- The keys that are not settled.
abbrev pub unsettled : List ℕ → List ℕ → ℕ
unsettled settled [] = 0
unsettled settled (k ∷ keys) = (if mem k settled then 0 else 1) + unsettled settled keys

unsettled-same :
    (u : ℕ) (settled keys : List ℕ) → unsettled (u ∷ settled) keys ≤ unsettled settled keys
unsettled-same u settled [] = omega arith
unsettled-same u settled (k ∷ keys) = ground (arith, unsettled-same u settled keys)

pub unsettled-settle :
    (u : ℕ) (settled keys : List ℕ)
    → mem u keys ≡ true
    → mem u settled ≡ false
    → suc (unsettled (u ∷ settled) keys) ≤ unsettled settled keys
unsettled-settle u settled [] h k = cc
unsettled-settle u settled (j ∷ keys) h k =
    ground (
      arith,
      unsettled-same u settled keys,
      unsettled-settle u settled keys,
      ==_iff j u,
      ==_iff u j,
    )

module _ (out : ℕ → List (ℕ × ℕ)) (source : ℕ) (keys : List ℕ) where
  -- The settled nodes, the last one first: the first of all is the source, and the parent of each
  -- of the others was settled before it.
  abbrev pub IsChain : List ℕ → Map ℕ ℕ → Type 0
  IsChain [] parent = Unit {0}
  IsChain (u ∷ settled) parent =
      ((u ≡ source) ⊎ ((p : ℕ) × (find u parent ≡ some p) × (mem p settled ≡ true)))
      × IsChain settled parent

  -- What the inner loop does.
  pub record Scanned (settled : List ℕ) (current bound : ℕ) (edges : List (ℕ × ℕ)) (l l' : Labels)
      : Type 0 where
    pub kept : IsSearching out source keys settled current bound l'
    pub falls : (w : ℕ) → label l'.distances w ≤ label l.distances w
    pub settled_stay : (w : ℕ) → mem w settled ≡ true → label l'.distances w ≡ label l.distances w
    pub parents_stay : (w : ℕ) → mem w settled ≡ true → find w l'.parent ≡ find w l.parent
    pub short : All (λ e. label l'.distances e.0 ≤ current + e.1) edges

  -- A link that may be relaxed.
  abbrev pub IsLink : ℕ → ℕ → ℕ → ℕ × ℕ → Type 0
  IsLink u current bound e = (mem e.0 keys ≡ true) × (current + e.1 ≤ bound) × Memᴰ e (out u)

  pub relax_all-Scanned :
      (settled : List ℕ) (u current bound : ℕ) (edges : List (ℕ × ℕ)) (l : Labels)
      → IsSearching out source keys settled current bound l
      → mem u settled ≡ true
      → label l.distances u ≡ current
      → bound < infinity
      → All (IsLink u current bound) edges
      → Scanned settled current bound edges l (relax_all u current l edges)
  unfolding relax_all
  relax_all-Scanned settled u current bound [] l s here at_u small a = record {
    kept = s;
    falls = λ w. omega arith;
    settled_stay = λ w e. refl;
    parents_stay = λ w e. refl;
    short = tt;
  }
  relax_all-Scanned settled u current bound ((v, cost) ∷ edges) l s here at_u small a =
      let first =
        relax-Relaxed out source keys settled u current bound v cost l s here at_u a.0.0 a.0.1 small
          a.0.2 in
      let rest =
        relax_all-Scanned settled u current bound edges (relax u current l v cost) first.kept here
          (first.settled_stay u here ∙ at_u) small a.1 in
      record {
        kept = rest.kept;
        falls = λ w. omega (arith, first.falls w, rest.falls w);
        settled_stay = λ w e. rest.settled_stay w e ∙ first.settled_stay w e;
        parents_stay = λ w e. rest.parents_stay w e ∙ first.parents_stay w e;
        short = (omega (arith, first.short, rest.falls v), rest.short);
      }

  pub IsChain-stays :
      (settled below : List ℕ) (p q : Map ℕ ℕ)
      → ((w : ℕ) → mem w settled ≡ true → mem w below ≡ true)
      → ((w : ℕ) → mem w below ≡ true → find w q ≡ find w p)
      → IsChain settled p
      → IsChain settled q
  IsChain-stays [] below p q sub same c = tt
  IsChain-stays (u ∷ settled) below p q sub same c =
      let same_u = same u (sub u (ground (arith, ==_iff u u))) in
      (
        elim c.0 [ inl first ↦ inl first | inr (x, e, done) ↦ inr (x, same_u ∙ e, done) ],
        IsChain-stays settled below p q (λ w e. sub w (ground arith)) same c.1,
      )

  -- What holds between two rounds of the outer loop; `most` bounds the costs.
  pub record IsSettling (most : ℕ) (settled : List ℕ) (current : ℕ) (l : Labels) : Type 0 where
    pub searching : IsSearching out source keys settled current (length settled * most) l
    pub relaxed :
        (u : ℕ)
        → mem u settled ≡ true
        → All (λ e. label l.distances e.0 ≤ label l.distances u + e.1) (out u)
    pub chain : IsChain settled l.parent
    pub counted : length settled + unsettled settled keys ≤ length keys
    pub known : (u : ℕ) → mem u settled ≡ true → mem u keys ≡ true
