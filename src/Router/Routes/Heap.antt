-- ===== src/Router/Routes/Heap.antt =====
-- The priority queue of `compute_routes` (core-engine/src/network/router.cpp) as a list in strict order.
use mathlib.Core.List.{Memᴰ}
use mathlib.Core.List.Memᴰ
use network_simulator_platfo.Common.{
  ℕ, ◌≡◌, ◌⊎◌, inl, inr, refl, true, List, [], ◌∷◌, All, arith, Bool-cases, All_map,
}
use network_simulator_platfo.Router.Routes.{before, push}

abbrev pub Heap : Type 0
Heap = List (ℕ × ℕ)

-- Each pair stands before those behind it.
abbrev pub IsOrdered : Heap → Type 0
IsOrdered [] = Unit {0}
IsOrdered (p ∷ h) = All (λ q. before p q ≡ true) h × IsOrdered h

pub All-push {κ} : (P : ℕ × ℕ → Type κ) (p : ℕ × ℕ) (h : Heap) → P p → All P h → All P (push p h)
unfolding push
All-push P p [] x a = (x, tt)
All-push P p (q ∷ h) x a = elim (Bool-cases (before q p)) [
  | inl e ↦ rw e (a.0, All-push P p h x a.1)
  | inr e ↦ rw e (x, a)
]

pub Memᴰ-push_self : (p : ℕ × ℕ) (h : Heap) → Memᴰ p (push p h)
unfolding push
Memᴰ-push_self p [] = Memᴰ.head refl
Memᴰ-push_self p (q ∷ h) = elim (Bool-cases (before q p)) [
  | inl e ↦ rw e (Memᴰ.tail (Memᴰ-push_self p h))
  | inr e ↦ rw e (Memᴰ.head refl)
]

pub Memᴰ-push_other : (p r : ℕ × ℕ) (h : Heap) → Memᴰ r h → Memᴰ r (push p h)
unfolding push
Memᴰ-push_other p r [] m = absurd (Memᴰ.not-nil m)
Memᴰ-push_other p r (q ∷ h) m = elim (Bool-cases (before q p)) [
  | inl e ↦ rw e (elim (Memᴰ.cases_cons m) [
    | inl here ↦ Memᴰ.head here
    | inr there ↦ Memᴰ.tail (Memᴰ-push_other p r h there)
  ])
  | inr e ↦ rw e (Memᴰ.tail m)
]

before_trans : (p q r : ℕ × ℕ) → before p q ≡ true → before q r ≡ true → before p r ≡ true
before_trans p q r h k = ground arith

-- A pair that is not there yet keeps the order strict.
pub push-IsOrdered :
    (p : ℕ × ℕ) (h : Heap)
    → All (λ q. (before q p ≡ true) ⊎ (before p q ≡ true)) h
    → IsOrdered h
    → IsOrdered (push p h)
unfolding push
push-IsOrdered p [] a o = (tt, tt)
push-IsOrdered p (q ∷ h) a o = elim (Bool-cases (before q p)) [
  | inl e ↦ rw e (All-push (λ r. before q r ≡ true) p h e o.0, push-IsOrdered p h a.1 o.1)
  | inr e ↦
      let first : before p q ≡ true = ground (arith, a.0) in
      rw e ((first, All_map h (λ r k. before_trans p q r first k) o.0), o)
]
