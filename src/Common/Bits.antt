-- ===== src/Common/Bits.antt =====
-- The bit operations at variables. The native ones stand for a recursion on binary digits.
use Prim.Native.Nat.{min, max, bit_and, bit_or, digits, bitwise, bit_and-bitwise, bit_or-bitwise}
use Prim.Native.Nat.{ℕ, zero, suc, ◌+◌, ◌-◌, ◌*◌, ◌/◌, ◌%◌, ◌^◌, ◌≤◌, ◌<◌}
use mathlib.Core.Path.{◌≡◌, refl, ◌∙◌, sym, ap}
use native.Mathlib.Nat.{pow-suc, add-mul-mod_self_right, mod-eq_of_lt, mod-lt, div-add-mod}
use native.Mathlib.Omega.{arith}

-- Fuel beyond the first number makes no difference.
module _ (base : ℕ → ℕ) (op : ℕ → ℕ → ℕ) where
  more_fuel : (k l x y : ℕ) → x ≤ k → x ≤ l → digits base op k x y ≡ digits base op l x y
  more_fuel k l zero y hk hl = none_left k ∙ sym (none_left l)
    where
      none_left : (j : ℕ) → digits base op j zero y ≡ base y
      none_left zero = refl
      none_left (suc j) = refl
  more_fuel (suc k) (suc l) (suc x) y hk hl =
      ap (λ d. d * 2 + op (suc x % 2) (y % 2))
        (more_fuel k l (suc x / 2) (y / 2) (omega arith) (omega arith))
  more_fuel _ _ (suc x) y hk hl = absurd (omega arith)

  lowest_digit :
      (x y : ℕ)
      → bitwise base op (suc x) y ≡ bitwise base op (suc x / 2) (y / 2) * 2 + op (suc x % 2) (y % 2)
  lowest_digit x y =
      ap (λ d. d * 2 + op (suc x % 2) (y % 2))
        (more_fuel x (suc x / 2) (suc x / 2) (y / 2) (omega arith) (omega arith))

-- `x & y` by halves.
pub bit_and_halves : (x y : ℕ) → bit_and x y ≡ bit_and (x / 2) (y / 2) * 2 + min (x % 2) (y % 2)
bit_and_halves zero y = simp bit_and-bitwise (omega arith)
bit_and_halves (suc x) y = simp bit_and-bitwise (lowest_digit (λ _. 0) min x y)

-- `x | y` by halves.
pub bit_or_halves : (x y : ℕ) → bit_or x y ≡ bit_or (x / 2) (y / 2) * 2 + max (x % 2) (y % 2)
bit_or_halves zero y = simp bit_or-bitwise (omega arith)
bit_or_halves (suc x) y = simp bit_or-bitwise (lowest_digit (λ v. v) max x y)

zero-bit_or : (y : ℕ) → bit_or 0 y ≡ y
zero-bit_or y = simp bit_or-bitwise

zero-bit_and : (y : ℕ) → bit_and 0 y ≡ 0
zero-bit_and y = simp bit_and-bitwise

pub pow-pos : (k : ℕ) → 0 < 2 ^ k
pow-pos zero = omega arith
pow-pos (suc k) = omega (arith, pow-suc 2 k, pow-pos k)

bit_and-zero_below : (n x : ℕ) → x ≤ n → bit_and x 0 ≡ 0
bit_and-zero_below n zero h = zero-bit_and 0
bit_and-zero_below zero (suc x) h = absurd (omega arith)
bit_and-zero_below (suc n) (suc x) h =
    omega (arith, bit_and_halves (suc x) 0, bit_and-zero_below n (suc x / 2) (omega arith))

bit_or-zero_below : (n x : ℕ) → x ≤ n → bit_or x 0 ≡ x
bit_or-zero_below n zero h = zero-bit_or 0
bit_or-zero_below zero (suc x) h = absurd (omega arith)
bit_or-zero_below (suc n) (suc x) h =
    omega (arith, bit_or_halves (suc x) 0, bit_or-zero_below n (suc x / 2) (omega arith))

mod_unique : (q m r : ℕ) → r < m → (r + q * m) % m ≡ r
mod_unique q m r h = add-mul-mod_self_right r q m ∙ mod-eq_of_lt h

-- The lowest bit and those above it, modulo a power of two.
halves_mod : (k x : ℕ) → x / 2 % 2 ^ k * 2 + x % 2 ≡ x % 2 ^ suc k
halves_mod k x =
    let q = x / 2 / 2 ^ k in
    let r = x / 2 % 2 ^ k in
    let below : r < 2 ^ k = mod-lt (x / 2) (pow-pos k) in
    let whole : x ≡ r * 2 + x % 2 + q * 2 ^ suc k =
      omega (arith, ap (λ t. q * t) (pow-suc 2 k), div-add-mod (x / 2) (2 ^ k)) in
    sym (mod_unique q (2 ^ suc k) (r * 2 + x % 2) (omega (arith, pow-suc 2 k)))
    ∙ ap (λ v. v % 2 ^ suc k) (sym whole)

-- The mask of k ones keeps the k lowest bits.
pub bit_and_ones : (k x : ℕ) → bit_and x (2 ^ k - 1) ≡ x % 2 ^ k
bit_and_ones zero x = omega (arith, bit_and-zero_below x x (omega arith))
bit_and_ones (suc k) x =
    let half : (2 ^ suc k - 1) / 2 ≡ 2 ^ k - 1 = omega (arith, pow-suc 2 k, pow-pos k) in
    let odd : (2 ^ suc k - 1) % 2 ≡ 1 = omega (arith, pow-suc 2 k, pow-pos k) in
    bit_and_halves x (2 ^ suc k - 1)
    ∙ rw (half, odd, bit_and_ones k (x / 2)) (omega (arith, halves_mod k x))

-- Bits that do not overlap are added.
pub bit_or-add : (k x y : ℕ) → y < 2 ^ k → bit_or (x * 2 ^ k) y ≡ x * 2 ^ k + y
bit_or-add zero x y h =
    let none_set : y ≡ 0 = omega arith in
    rw none_set (omega (arith, bit_or-zero_below (x * 1) (x * 1) (omega arith)))
bit_or-add (suc k) x y h =
    let twice : x * 2 ^ suc k ≡ x * 2 ^ k * 2 = omega (arith, ap (λ t. x * t) (pow-suc 2 k)) in
    let half : x * 2 ^ suc k / 2 ≡ x * 2 ^ k = omega arith in
    let even : x * 2 ^ suc k % 2 ≡ 0 = omega arith in
    bit_or_halves (x * 2 ^ suc k) y
    ∙ rw (half, even, bit_or-add k x (y / 2) (omega (arith, pow-suc 2 k))) (omega arith)

bit_and_twice_below : (n x m : ℕ) → x ≤ n → bit_and (bit_and x m) m ≡ bit_and x m
bit_and_twice_below n zero m h = rw (zero-bit_and m) (zero-bit_and m)
bit_and_twice_below zero (suc x) m h = absurd (omega arith)
bit_and_twice_below (suc n) (suc x) m h =
    let c = bit_and (suc x) m in
    let half : c / 2 ≡ bit_and (suc x / 2) (m / 2) = omega (arith, bit_and_halves (suc x) m) in
    let ih = bit_and_twice_below n (suc x / 2) (m / 2) (omega arith) in
    omega
      (arith, bit_and_halves c m, bit_and_halves (suc x) m, ap (λ v. bit_and v (m / 2)) half, ih)

-- A mask keeps what it has kept.
pub bit_and_twice : (x m : ℕ) → bit_and (bit_and x m) m ≡ bit_and x m
bit_and_twice x m = bit_and_twice_below x x m (omega arith)
