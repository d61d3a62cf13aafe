-- ===== src/Addressing.antt =====
-- IPv4 addresses and subnet masks: core-engine/include/network/addressing.hpp and
-- core-engine/src/network/addressing.cpp. An address or a mask is a number below 2 ^ 32.
pub mod RoundTrip
pub mod Masks
pub mod Prefix
mod Tests
use Prim.Native.Nat.{bit_and, bit_or}
use network_simulator_platfo.Common.{
  ℕ, zero, suc, ◌+◌, ◌-◌, ◌*◌, ◌/◌, ◌%◌, ◌^◌, Bool, true, false, not, ◌&&◌, ◌||◌, Option, none,
  some, List, [], ◌∷◌, ◌++◌, ltb, leb, ◌==◌, if◌then◌else◌,
}
use network_simulator_platfo.Common.Words.{Bytes, u32_mod, add32}
use network_simulator_platfo.Common.Decimal.{to_decimal}

pub record IPv4Address : Type 0 where
  pub address : ℕ

pub record SubnetMask : Type 0 where
  pub mask : ℕ

-- The exceptions, all of them `std::invalid_argument`.
pub data AddressError : Type 0 where
  octet_exceeds_255 malformed_separators invalid_symbol malformed_segment_count prefix_bounds
        non_contiguous_bits :
      AddressError

pub data Result (A : Type 0) : Type 0 where
  ok : A → Result A
  throws : AddressError → Result A

infixl 5 ◌>>=◌
abbrev pub ◌>>=◌ : {A B : Type 0} → Result A → (A → Result B) → Result B
ok a >>= f = f a
throws e >>= f = throws e

-- The local variables of the parser.
pub record Scan : Type 0 where
  pub result : ℕ
  pub octets_found : ℕ
  pub current_octet : ℕ
  pub reading_digit : Bool

abbrev pub dot : ℕ
dot = 46

-- `(result << 8) | current_octet`
unfoldable pub shift_in : ℕ → ℕ → ℕ
shift_in result octet = bit_or (result * 2 ^ 8 % u32_mod) octet

-- The loop's body.
unfoldable pub scan_char : Scan → ℕ → Result Scan
scan_char s ch =
    let octet = s.current_octet * 10 + (ch - b'0') in
    if leb b'0' ch && leb ch b'9'
    then if ltb 255 octet
      then throws octet_exceeds_255
      else ok (record s { current_octet = octet; reading_digit = true })
    else if ch == dot
    then if not s.reading_digit || leb 3 s.octets_found
      then throws malformed_separators
      else ok (record {
        result = shift_in s.result s.current_octet;
        octets_found = s.octets_found + 1;
        current_octet = 0;
        reading_digit = false;
      })
    else throws invalid_symbol

unfoldable pub scan : Scan → Bytes → Result Scan
scan s [] = ok s
scan s (ch ∷ chs) = elim (scan_char s ch) [ ok s' ↦ scan s' chs | throws e ↦ throws e ]

-- What follows the loop.
unfoldable pub finish : Scan → Result IPv4Address
finish s =
    if not (s.octets_found == 3) || not s.reading_digit
    then throws malformed_segment_count
    else ok (record { address = shift_in s.result s.current_octet })

-- `IPv4Address(ip_str)`
unfoldable pub parse : Bytes → Result IPv4Address
parse ip_str =
    scan (record { result = 0; octets_found = 0; current_octet = 0; reading_digit = false }) ip_str
    >>= finish

-- `(address_ >> n) & 0xFF`
unfoldable pub octet_at : IPv4Address → ℕ → ℕ
octet_at a n = bit_and (a.address / 2 ^ n) 0xff

unfoldable pub to_string : IPv4Address → Bytes
to_string a =
    to_decimal (octet_at a 24)
    ++ dot
      ∷ (to_decimal (octet_at a 16)
          ++ dot ∷ (to_decimal (octet_at a 8) ++ dot ∷ to_decimal (octet_at a 0)))

-- A value of `int`.
pub data ℤ : Type 0 where
  pos : ℕ → ℤ
  -- `negsuc n` is -(n + 1)
  negsuc : ℕ → ℤ

-- `(prefix_length == 0) ? 0 : (~0u << (32 - prefix_length))`
unfoldable pub prefix_mask : ℕ → ℕ
prefix_mask p = if p == 0 then 0 else (u32_mod - 1) * 2 ^ (32 - p) % u32_mod

-- `SubnetMask(prefix_length)`
unfoldable pub of_prefix : ℤ → Result SubnetMask
of_prefix (negsuc n) = throws prefix_bounds
of_prefix (pos p) = if ltb 32 p then throws prefix_bounds else ok (record { mask = prefix_mask p })

-- `~m`
abbrev pub not32 : ℕ → ℕ
not32 m = u32_mod - 1 - m

-- The test of the bits of a mask that was parsed.
unfoldable pub check_contiguous : IPv4Address → Result SubnetMask
check_contiguous a =
    let m = a.address in
    let inverted = not32 m in
    if not (m == 0) && not (bit_and inverted (add32 inverted 1) == 0)
    then throws non_contiguous_bits
    else ok (record { mask = m })

-- `SubnetMask(mask_str)`
unfoldable pub parse_mask : Bytes → Result SubnetMask
parse_mask mask_str = parse mask_str >>= check_contiguous

-- The loop of `to_prefix_length`, with fuel; the count is a `uint8_t`.
unfoldable pub count_ones : ℕ → ℕ → ℕ → Option ℕ
count_ones zero m count = none
count_ones (suc fuel) m count =
    let rest = count_ones fuel (m / 2) ((count + bit_and m 1) % 256) in
    if m == 0 then some count else rest

-- 33 rounds of fuel for 32 bits; the last case would be that of too little fuel.
unfoldable pub to_prefix_length : SubnetMask → ℕ
to_prefix_length s = elim (count_ones 33 s.mask 0) [ some count ↦ count | none ↦ 0 ]

unfoldable pub mask_to_string : SubnetMask → Bytes
mask_to_string s = to_string (record { address = s.mask })
