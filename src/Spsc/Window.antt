-- ===== src/Spsc/Window.antt =====
-- The part of a ring of 2 ^ k slots that holds the items of a queue
-- (core-engine/include/system/event_queue.hpp). Indices count without end here; the slot of one is
-- its remainder.
use Prim.Native.Nat.{◌∣◌}
use native.Mathlib.Nat.{
  le_of_eq, dvd_refl, dvd-mul_right_of_dvd, div-add-mod, mul-le-mul_left, mod-mod_of_dvd, mod-lt,
  pow-suc,
}
use native.Mathlib.Decide.{dec_lt}
use network_simulator_platfo.Common.{
  ℕ, zero, suc, ◌+◌, ◌-◌, ◌*◌, ◌/◌, ◌%◌, ◌^◌, ◌≤◌, ◌<◌, ◌≡◌, ◌≢◌, ◌∙◌, sym, ap, subst, some, List,
  [], ◌∷◌, ◌++◌, arith, length, get_elem?, set, get_elem?-set_self, get_elem?-set_ne,
}
use network_simulator_platfo.Common.Bits.{bit_and_ones}
use network_simulator_platfo.Common.Words.{u64_mod}
use network_simulator_platfo.Spsc.{slot, sub64}

module _ {A : Type 0} where
  -- The slots from index h on hold the items in order.
  abbrev pub Holds : ℕ → List A → ℕ → List A → Type 0
  Holds cap buf h [] = Unit
  Holds cap buf h (x ∷ xs) = (get_elem? buf (h % cap) ≡ some x) × Holds cap buf (h + 1) xs

-- Fewer than `cap` steps on, the slot is another.
mod-ne : (cap h d : ℕ) → 0 < d → d < cap → (h + d) % cap ≢ h % cap
mod-ne cap h d pos lt e = elim (dec_lt (h / cap) ((h + d) / cap)) [
  | yes more ↦
      let step : cap * suc (h / cap) ≤ cap * ((h + d) / cap) = mul-le-mul_left cap more in
      omega (arith, div-add-mod h cap, div-add-mod (h + d) cap, e)
  | no less ↦
      let step : cap * ((h + d) / cap) ≤ cap * (h / cap) = mul-le-mul_left cap (omega arith) in
      omega (arith, div-add-mod h cap, div-add-mod (h + d) cap, e)
]

module _ {A : Type 0} (cap : ℕ) (pos : 0 < cap) where
  -- To write a slot that is no item's keeps all items.
  pub Holds-set :
      (buf : List A) (h t : ℕ) (x : A) (xs : List A)
      → h + length xs ≤ t
      → t < h + cap
      → Holds cap buf h xs
      → Holds cap (set buf (t % cap) x) h xs
  Holds-set buf h t x [] le lt k = tt
  Holds-set buf h t x (y ∷ ys) le lt k =
      let away : t % cap ≢ h % cap =
        subst (λ i. i % cap ≢ h % cap) {x = h + (t - h)} {y = t} (omega arith)
          (mod-ne cap h (t - h) (omega arith) (omega arith)) in
      (
        get_elem?-set_ne buf x away ∙ k.0,
        Holds-set buf (h + 1) t x ys (omega arith) (omega arith) k.1,
      )

  -- The slot that the tail writes is the next item's.
  pub Holds-extend :
      (buf : List A) (h : ℕ) (x : A) (xs : List A)
      → length buf ≡ cap
      → length xs < cap
      → Holds cap buf h xs
      → Holds cap (set buf ((h + length xs) % cap) x) h (xs ++ x ∷ [])
  Holds-extend buf h x [] size room k = (
    subst (λ i. get_elem? (set buf (i % cap) x) (h % cap) ≡ some x) {x = h} {y = h + 0}
        (omega arith) (get_elem?-set_self buf (h % cap) x (omega (arith, mod-lt h pos))),
    tt,
  )
  Holds-extend buf h x (y ∷ ys) size room k =
      let t = h + suc (length ys) in
      let away : t % cap ≢ h % cap = mod-ne cap h (suc (length ys)) (omega arith) room in
      let same : h + 1 + length ys ≡ t = omega arith in
      (
        get_elem?-set_ne buf x away ∙ k.0,
        subst (λ i. Holds cap (set buf (i % cap) x) (h + 1) (ys ++ x ∷ [])) same
            (Holds-extend buf (h + 1) x ys size (omega arith) k.1),
      )

pow-dvd : (j k : ℕ) → 2 ^ k ∣ 2 ^ (j + k)
pow-dvd zero k = subst (λ n. 2 ^ k ∣ 2 ^ n) {x = k} {y = 0 + k} (omega arith) (dvd_refl (2 ^ k))
pow-dvd (suc j) k =
    subst (λ v. 2 ^ k ∣ v)
      (sym (pow-suc 2 (j + k)) ∙ ap (λ n. 2 ^ n) {x = suc (j + k)} {y = suc j + k} (omega arith))
      (dvd-mul_right_of_dvd (2 ^ k) (pow-dvd j k) 2)

pow-le : (j k : ℕ) → 2 ^ k ≤ 2 ^ (j + k)
pow-le zero k = le_of_eq (ap (λ n. 2 ^ n) {x = k} {y = 0 + k} (omega arith))
pow-le (suc j) k = omega (
  arith,
  pow-le j k,
  pow-suc 2 (j + k),
  ap (λ n. 2 ^ n) {x = suc (j + k)} {y = suc j + k} (omega arith),
)

pub pow-lt-word : (k : ℕ) → k < 64 → 2 ^ k < u64_mod
pow-lt-word k h =
    let under : 2 ^ k ≤ 2 ^ 63 =
      subst (λ n. 2 ^ k ≤ 2 ^ n) {x = 63 - k + k} {y = 63} (omega arith) (pow-le (63 - k) k) in
    omega arith

-- An index taken modulo 2 ^ 64 has the same slot.
pub slot-mod : (k i : ℕ) → k ≤ 64 → slot k (i % u64_mod) ≡ i % 2 ^ k
slot-mod k i le =
    bit_and_ones k (i % u64_mod)
    ∙ mod-mod_of_dvd (2 ^ k) i
        (subst (λ n. 2 ^ k ∣ 2 ^ n) {x = 64 - k + k} {y = 64} (omega arith) (pow-dvd (64 - k) k))

-- The number of items is the difference of the indices, also where they have wrapped.
pub sub64-mod : (h d : ℕ) → d < u64_mod → sub64 ((h + d) % u64_mod) (h % u64_mod) ≡ d
sub64-mod h d lt = omega arith
