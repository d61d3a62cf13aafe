-- ===== src/Addressing/Prefix.antt =====
-- What a prefix mask keeps of an address (core-engine/include/network/addressing.hpp).
use Prim.Native.Nat.{bit_and}
use native.Mathlib.Nat.{
  mod-eq_of_lt, div-lt_iff_lt-mul, mul-div_cancel, pow-suc, div-div-eq-div-mul,
}
use network_simulator_platfo.Common.{
  ℕ, zero, suc, ◌-◌, ◌*◌, ◌/◌, ◌%◌, ◌^◌, ◌≤◌, ◌<◌, ◌≡◌, ◌↔◌, ◌∙◌, sym, ap, arith,
}
use network_simulator_platfo.Common.Bits.{bit_and_halves, bit_and_ones, pow-pos}
use network_simulator_platfo.Addressing.{prefix_mask}
use network_simulator_platfo.Addressing.Masks.{pow_split, prefix_mask_ones}

div_div : (x k : ℕ) → x / 2 / 2 ^ k ≡ x / 2 ^ suc k
div_div x k =
    div-div-eq-div-mul x 2 (2 ^ k)
    ∙ ap (λ d. x / d) {x = 2 * 2 ^ k} {y = 2 ^ suc k} (omega (arith, pow-suc 2 k))

-- A mask with k zeros at its end.
bit_and-shift : (k x m : ℕ) → bit_and x (m * 2 ^ k) ≡ bit_and (x / 2 ^ k) m * 2 ^ k
bit_and-shift zero x m =
    ap {B = ℕ} (bit_and x) {x = m * 1} {y = m} (omega arith)
    ∙ ap {B = ℕ} (λ y. bit_and y m) {x = x} {y = x / 1} (omega arith)
    ∙ (omega arith)
bit_and-shift (suc k) x m =
    let twice : m * 2 ^ suc k ≡ m * 2 ^ k * 2 = omega (arith, ap (λ t. m * t) (pow-suc 2 k)) in
    let half : m * 2 ^ suc k / 2 ≡ m * 2 ^ k = omega arith in
    let even : m * 2 ^ suc k % 2 ≡ 0 = omega arith in
    bit_and_halves x (m * 2 ^ suc k)
    ∙ rw (half, even, bit_and-shift k (x / 2) m, div_div x k)
        (omega (arith, ap (λ t. bit_and (x / 2 ^ suc k) m * t) (pow-suc 2 k)))

-- Of a number of 32 bits a prefix mask keeps the leading bits.
kept : (a p : ℕ) → a < 2 ^ 32 → p ≤ 32 → bit_and a (prefix_mask p) ≡ a / 2 ^ (32 - p) * 2 ^ (32 - p)
kept a p h bound =
    ap (bit_and a) (prefix_mask_ones p bound)
    ∙ bit_and-shift (32 - p) a (2 ^ p - 1)
    ∙ ap (λ b. b * 2 ^ (32 - p))
        (bit_and_ones p (a / 2 ^ (32 - p))
          ∙ mod-eq_of_lt
              ((div-lt_iff_lt-mul (pow-pos (32 - p))).1 (omega (arith, h, pow_split p bound))))

-- Two addresses are the same behind a prefix mask exactly where their leading bits are the same.
pub same_prefix :
    (a b p : ℕ)
    → a < 2 ^ 32
    → b < 2 ^ 32
    → p ≤ 32
    → (bit_and a (prefix_mask p) ≡ bit_and b (prefix_mask p))
      ↔ (a / 2 ^ (32 - p) ≡ b / 2 ^ (32 - p))
same_prefix a b p h k bound =
    let size = 2 ^ (32 - p) in
    (
      λ e.
          sym (mul-div_cancel (a / size) (pow-pos (32 - p)))
          ∙ ap (λ v. v / size) (sym (kept a p h bound) ∙ e ∙ kept b p k bound)
          ∙ mul-div_cancel (b / size) (pow-pos (32 - p)),
      λ e. kept a p h bound ∙ ap (λ v. v * size) e ∙ sym (kept b p k bound),
    )
