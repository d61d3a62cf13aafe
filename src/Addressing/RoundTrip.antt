-- ===== src/Addressing/RoundTrip.antt =====
-- An address is read back from its text (core-engine/src/network/addressing.cpp).
use Prim.Native.Nat.{bit_or}
use native.Mathlib.Decide.{dec_lt}
use network_simulator_platfo.Common.{
  ℕ, ◌+◌, ◌*◌, ◌/◌, ◌%◌, ◌^◌, ◌<◌, ◌≡◌, ◌∙◌, sym, ap, Bool, true, false, [], ◌∷◌, ◌++◌, append-nil,
  arith,
}
use network_simulator_platfo.Common.Bits.{bit_or-add, bit_and_ones}
use network_simulator_platfo.Common.Decimal.{
  to_decimal, to_decimal_one, to_decimal_two, to_decimal_three,
}
use network_simulator_platfo.Common.Words.{Bytes, u32_mod}
use network_simulator_platfo.Addressing.{
  IPv4Address, Result, ok, Scan, dot, shift_in, scan_char, scan, finish, parse, octet_at, to_string,
  ◌>>=◌,
}

shift_in-add : (r o : ℕ) → r < 2 ^ 24 → o < 256 → shift_in r o ≡ r * 256 + o
unfolding shift_in
shift_in-add r o h k =
    ap (λ v. bit_or v o) {x = r * 2 ^ 8 % u32_mod} {y = r * 2 ^ 8} (omega arith)
    ∙ bit_or-add 8 r o k

abbrev at : ℕ → ℕ → ℕ → Bool → Scan
at result n octet digit = record {
  result = result;
  octets_found = n;
  current_octet = octet;
  reading_digit = digit;
}

-- One digit.
scan_digit :
    (r n o d : ℕ) (reading : Bool) (rest : Bytes)
    → d < 10
    → o * 10 + d < 256
    → scan (at r n o reading) ((b'0' + d) ∷ rest) ≡ scan (at r n (o * 10 + d) true) rest
unfolding scan scan_char
scan_digit r n o d reading rest h k = ground arith

-- The digits of an octet.
scan_octet :
    (r n o : ℕ) (rest : Bytes)
    → o < 256
    → scan (at r n 0 false) (to_decimal o ++ rest) ≡ scan (at r n o true) rest
scan_octet r n o rest h = elim (dec_lt o 10) [
  | yes one ↦
      rw (to_decimal_one o one)
        (scan_digit r n 0 o false rest one (omega arith) ∙ same (omega arith))
  | no more ↦ elim (dec_lt o 100) [
    | yes two ↦ rw (to_decimal_two o (omega arith) two) (
        scan_digit r n 0 (o / 10) false _ (omega arith) (omega arith)
        ∙ scan_digit r n (0 * 10 + o / 10) (o % 10) true rest (omega arith) (omega arith)
        ∙ same (omega arith))
    | no three ↦ rw (to_decimal_three o (omega arith) (omega arith)) (
        scan_digit r n 0 (o / 100) false _ (omega arith) (omega arith)
        ∙ scan_digit r n (0 * 10 + o / 100) (o / 10 % 10) true _ (omega arith) (omega arith)
        ∙ scan_digit r n ((0 * 10 + o / 100) * 10 + o / 10 % 10) (o % 10) true rest (omega arith)
            (omega arith)
        ∙ same (omega arith))
  ]
]
  where
    same : {v : ℕ} → v ≡ o → scan (at r n v true) rest ≡ scan (at r n o true) rest
    same e = ap (λ v. scan (at r n v true) rest) e

scan-dot :
    (r n o : ℕ) (rest : Bytes)
    → n < 3
    → scan (at r n o true) (dot ∷ rest) ≡ scan (at (shift_in r o) (n + 1) 0 false) rest
unfolding scan scan_char
scan-dot r n o rest h = ground arith

octet_at-lt : (a : IPv4Address) (k : ℕ) → octet_at a k < 256
unfolding octet_at
octet_at-lt a k = omega (arith, bit_and_ones 8 (a.address / 2 ^ k))

octets : (a : IPv4Address) (k : ℕ) → octet_at a k ≡ a.address / 2 ^ k % 256
unfolding octet_at
octets a k = bit_and_ones 8 (a.address / 2 ^ k)

-- The parser on four octets with dots between them.
scan_octets :
    (o₁ o₂ o₃ o₄ : ℕ)
    → o₁ < 256
    → o₂ < 256
    → o₃ < 256
    → o₄ < 256
    → scan
        (at 0 0 0 false)
        (to_decimal o₁ ++ dot ∷ (to_decimal o₂ ++ dot ∷ (to_decimal o₃ ++ dot ∷ to_decimal o₄)))
      ≡ ok (at (shift_in (shift_in (shift_in 0 o₁) o₂) o₃) 3 o₄ true)
unfolding scan
scan_octets o₁ o₂ o₃ o₄ h₁ h₂ h₃ h₄ =
    scan_octet 0 0 o₁ _ h₁
    ∙ scan-dot 0 0 o₁ _ (omega arith)
    ∙ scan_octet (shift_in 0 o₁) 1 o₂ _ h₂
    ∙ scan-dot (shift_in 0 o₁) 1 o₂ _ (omega arith)
    ∙ scan_octet (shift_in (shift_in 0 o₁) o₂) 2 o₃ _ h₃
    ∙ scan-dot (shift_in (shift_in 0 o₁) o₂) 2 o₃ _ (omega arith)
    ∙ ap (scan (at (shift_in (shift_in (shift_in 0 o₁) o₂) o₃) 3 0 false))
        (sym (append-nil (to_decimal o₄)))
    ∙ scan_octet (shift_in (shift_in (shift_in 0 o₁) o₂) o₃) 3 o₄ [] h₄

shift_in_all :
    (o₁ o₂ o₃ o₄ : ℕ)
    → o₁ < 256
    → o₂ < 256
    → o₃ < 256
    → o₄ < 256
    → shift_in (shift_in (shift_in (shift_in 0 o₁) o₂) o₃) o₄
      ≡ ((o₁ * 256 + o₂) * 256 + o₃) * 256 + o₄
shift_in_all o₁ o₂ o₃ o₄ h₁ h₂ h₃ h₄ =
    ap (λ r. shift_in (shift_in (shift_in r o₂) o₃) o₄) (shift_in-add 0 o₁ (omega arith) h₁)
    ∙ ap (λ r. shift_in (shift_in r o₃) o₄) (shift_in-add (0 * 256 + o₁) o₂ (omega arith) h₂)
    ∙ ap (λ r. shift_in r o₄) (shift_in-add ((0 * 256 + o₁) * 256 + o₂) o₃ (omega arith) h₃)
    ∙ shift_in-add (((0 * 256 + o₁) * 256 + o₂) * 256 + o₃) o₄ (omega arith) h₄
    ∙ (omega arith)

octets_sum :
    (a : IPv4Address)
    → a.address < 2 ^ 32
    → ((octet_at a 24 * 256 + octet_at a 16) * 256 + octet_at a 8) * 256 + octet_at a 0 ≡ a.address
octets_sum a h = rw (octets a 24, octets a 16, octets a 8, octets a 0) (omega arith)

-- The text of an address below 2 ^ 32 is parsed to that address.
pub parse-to_string : (a : IPv4Address) → a.address < 2 ^ 32 → parse (to_string a) ≡ ok a
unfolding parse to_string finish
parse-to_string a h =
    let b₁ = octet_at-lt a 24 in
    let b₂ = octet_at-lt a 16 in
    let b₃ = octet_at-lt a 8 in
    let b₄ = octet_at-lt a 0 in
    ap (λ s. s >>= finish)
      (scan_octets (octet_at a 24) (octet_at a 16) (octet_at a 8) (octet_at a 0) b₁ b₂ b₃ b₄)
    ∙ ap {B = Result IPv4Address} (λ v. ok (record { address = v }))
        (shift_in_all (octet_at a 24) (octet_at a 16) (octet_at a 8) (octet_at a 0) b₁ b₂ b₃ b₄
          ∙ octets_sum a h)
