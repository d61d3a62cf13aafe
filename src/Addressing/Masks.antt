-- ===== src/Addressing/Masks.antt =====
-- Subnet masks are the masks of a prefix (core-engine/src/network/addressing.cpp).
use Prim.Native.Nat.{bit_and}
use native.Mathlib.Decide.{dec_lt}
use native.Mathlib.Nat.{pow-suc}
use network_simulator_platfo.Common.{
  ℕ, zero, suc, ◌+◌, ◌-◌, ◌*◌, ◌/◌, ◌%◌, ◌^◌, ◌≤◌, ◌<◌, ◌≡◌, ◌≢◌, ◌↔◌, refl, ◌∙◌, sym, ap, subst,
  Bool, true, ◌&&◌, ◌==◌, arith, ==_iff,
}
use network_simulator_platfo.Common.Bits.{bit_and_halves}
use network_simulator_platfo.Common.Words.{add32}
use network_simulator_platfo.Addressing.{
  IPv4Address, SubnetMask, ok, pos, prefix_mask, of_prefix, parse_mask, check_contiguous, not32,
  to_prefix_length, count_ones, mask_to_string, ◌>>=◌,
}
use network_simulator_platfo.Addressing.RoundTrip.{parse-to_string}

-- A test that passes at every number below a bound.
all_below : (ℕ → Bool) → ℕ → Bool
all_below test zero = true
all_below test (suc n) = test n && all_below test n

all_below_at : (test : ℕ → Bool) (n i : ℕ) → all_below test n ≡ true → i < n → test i ≡ true
unfolding all_below
all_below_at test zero i h k = absurd (omega arith)
all_below_at test (suc n) i h k = elim (dec_lt i n) [
  | yes below ↦ all_below_at test n i (ground arith) below
  | no last ↦ subst (λ j. test j ≡ true) {x = n} {y = i} (omega arith) (ground arith)
]

pub prefix_mask_ones : (p : ℕ) → p ≤ 32 → prefix_mask p ≡ (2 ^ p - 1) * 2 ^ (32 - p)
unfolding prefix_mask all_below
prefix_mask_ones p h =
    (==_iff (prefix_mask p) ((2 ^ p - 1) * 2 ^ (32 - p))).0
      (all_below_at (λ p. prefix_mask p == (2 ^ p - 1) * 2 ^ (32 - p)) 33 p refl (omega arith))

pub pow_split : (p : ℕ) → p ≤ 32 → 2 ^ p * 2 ^ (32 - p) ≡ 2 ^ 32
unfolding all_below
pow_split p h =
    (==_iff (2 ^ p * 2 ^ (32 - p)) (2 ^ 32)).0
      (all_below_at (λ p. 2 ^ p * 2 ^ (32 - p) == 2 ^ 32) 33 p refl (omega arith))

counted : (p : ℕ) → p ≤ 32 → to_prefix_length (record { mask = prefix_mask p }) ≡ p
unfolding prefix_mask to_prefix_length count_ones all_below
counted p h = (==_iff (to_prefix_length (record { mask = prefix_mask p })) p).0 (
    all_below_at (λ p. to_prefix_length (record { mask = prefix_mask p }) == p) 33 p refl
      (omega arith))

bit_and-self_below : (n x : ℕ) → x ≤ n → bit_and x x ≡ x
bit_and-self_below n zero h = bit_and_halves 0 0 ∙ (omega (arith, bit_and_halves 0 0))
bit_and-self_below zero (suc x) h = absurd (omega arith)
bit_and-self_below (suc n) (suc x) h =
    omega (arith, bit_and_halves (suc x) (suc x), bit_and-self_below n (suc x / 2) (omega arith))

-- A number that shares no bit with its successor is all ones.
all_ones : (n x : ℕ) → x ≤ n → bit_and x (x + 1) ≡ 0 → (j : ℕ) × (x + 1 ≡ 2 ^ j)
all_ones n zero h e = (0, refl)
all_ones zero (suc x) h e = absurd (omega arith)
all_ones (suc n) (suc x) h e = elim (dec_lt 0 (suc x % 2)) [
  | yes odd ↦
      let half : (suc x + 1) / 2 ≡ suc x / 2 + 1 = omega arith in
      let above : bit_and (suc x / 2) (suc x / 2 + 1) ≡ 0 =
        omega (arith, e, bit_and_halves (suc x) (suc x + 1), ap (bit_and (suc x / 2)) half) in
      let (j, whole) = all_ones n (suc x / 2) (omega arith) above in
      (suc j, omega (arith, whole, pow-suc 2 j))
  | no even ↦
      let half : (suc x + 1) / 2 ≡ suc x / 2 = omega arith in
      absurd (
        omega (
          arith,
          e,
          bit_and_halves (suc x) (suc x + 1),
          ap (bit_and (suc x / 2)) half,
          bit_and-self_below (suc x / 2) (suc x / 2) (omega arith),
        ))
]

pow_le_pow : (j k : ℕ) → j ≤ k → 2 ^ j ≤ 2 ^ k
pow_le_pow j zero h = subst (λ i. 2 ^ i ≤ 1) {x = 0} {y = j} (omega arith) (omega arith)
pow_le_pow j (suc k) h = elim (dec_lt j (suc k)) [
  | yes below ↦ omega (arith, pow_le_pow j k (omega arith), pow-suc 2 k)
  | no same ↦ subst (λ i. 2 ^ i ≤ 2 ^ suc k) {x = suc k} {y = j} (omega arith) (omega arith)
]

exponent_bound : (j : ℕ) → 2 ^ j ≤ 2 ^ 32 → j ≤ 32
exponent_bound j h = elim (dec_lt 32 j) [
  | yes above ↦ absurd (omega (arith, pow_le_pow 33 j (omega arith)))
  | no below ↦ omega arith
]

complement : (j : ℕ) → j ≤ 32 → (2 ^ (32 - j) - 1) * 2 ^ (32 - (32 - j)) ≡ 2 ^ 32 - 2 ^ j
unfolding all_below
complement j h = (==_iff ((2 ^ (32 - j) - 1) * 2 ^ (32 - (32 - j))) (2 ^ 32 - 2 ^ j)).0 (
    all_below_at (λ j. (2 ^ (32 - j) - 1) * 2 ^ (32 - (32 - j)) == 2 ^ 32 - 2 ^ j) 33 j refl
      (omega arith))

ones_below :
    (m : ℕ)
    → m < 2 ^ 32
    → (j : ℕ) × (2 ^ 32 - 1 - m + 1 ≡ 2 ^ j)
    → (p : ℕ) × (p ≤ 32) × (m ≡ prefix_mask p)
ones_below m h (j, e) =
    let bound = exponent_bound j (omega arith) in
    (
      32 - j,
      omega arith,
      omega (arith, complement j bound) ∙ sym (prefix_mask_ones (32 - j) (omega arith)),
    )

abbrev passes : ℕ → Bool
passes m = bit_and (not32 m) (add32 (not32 m) 1) == 0

all_pass : all_below (λ p. passes (prefix_mask p)) 33 ≡ true
unfolding all_below prefix_mask
all_pass = refl

accepted :
    (p : ℕ)
    → p ≤ 32
    → check_contiguous (record { address = prefix_mask p }) ≡ ok (record { mask = prefix_mask p })
unfolding check_contiguous
accepted p h =
    let here = all_below_at (λ p. passes (prefix_mask p)) 33 p all_pass (omega arith) in
    ground arith

pub mask_below : (p : ℕ) → p ≤ 32 → prefix_mask p < 2 ^ 32
unfolding prefix_mask
mask_below p h = ground arith

no_common_bit :
    (a : IPv4Address)
    → a.address < 2 ^ 32
    → a.address ≢ 0
    → check_contiguous a ≡ ok (record { mask = a.address })
    → bit_and (not32 a.address) (not32 a.address + 1) ≡ 0
unfolding check_contiguous
no_common_bit a h k e =
    let below : add32 (not32 a.address) 1 ≡ not32 a.address + 1 = omega arith in
    ap (bit_and (not32 a.address)) (sym below) ∙ ground arith

is_prefix :
    (a : IPv4Address)
    → a.address < 2 ^ 32
    → check_contiguous a ≡ ok (record { mask = a.address })
    → (p : ℕ) × (p ≤ 32) × (a.address ≡ prefix_mask p)
unfolding prefix_mask
is_prefix a h e = elim (dec_lt 0 a.address) [
  | no none_set ↦ (0, omega arith, omega arith)
  | yes some_set ↦ ones_below a.address h (
      all_ones (not32 a.address) (not32 a.address) (omega arith)
        (no_common_bit a h (λ z. omega arith) e))
]

-- For a value below 2 ^ 32 the test of a parsed mask passes, and keeps the mask as it is, exactly
-- where the mask is the mask of a prefix length up to 32.
pub check_contiguous-accepts :
    (a : IPv4Address)
    → a.address < 2 ^ 32
    → (check_contiguous a ≡ ok (record { mask = a.address }))
      ↔ ((p : ℕ) × (p ≤ 32) × (a.address ≡ prefix_mask p))
check_contiguous-accepts a h = (
  is_prefix a h,
  λ (p, bound, e).
      subst (λ m. check_contiguous (record { address = m }) ≡ ok (record { mask = m })) (sym e)
        (accepted p bound),
)

-- The mask of a prefix length up to 32 is made, its length is that prefix length again, and its text
-- is parsed to it.
pub mask_round_trip :
    (p : ℕ)
    → p ≤ 32
    → let s : SubnetMask = record { mask = prefix_mask p } in
      (of_prefix (pos p) ≡ ok s) × (to_prefix_length s ≡ p) × (parse_mask (mask_to_string s) ≡ ok s)
unfolding of_prefix parse_mask mask_to_string
mask_round_trip p h = (
  ground arith,
  counted p h,
  ap (λ r. r >>= check_contiguous)
        (parse-to_string (record { address = prefix_mask p }) (mask_below p h))
      ∙ accepted p h,
)
