-- ===== src/Addressing/Tests.antt =====
-- Runs of the address parser and the masks (core-engine/src/network/addressing.cpp) on concrete
-- inputs.
use network_simulator_platfo.Common.{ℕ, ◌≤◌, ◌≡◌, ◌↔◌, refl, [], ◌∷◌, arith}
use network_simulator_platfo.Addressing.{
  IPv4Address, SubnetMask, ok, throws, octet_exceeds_255, pos, of_prefix, prefix_mask, parse,
  to_string, parse_mask, mask_to_string, to_prefix_length, check_contiguous, scan, scan_char,
}
use network_simulator_platfo.Addressing.RoundTrip.{parse-to_string}
use network_simulator_platfo.Addressing.Masks.{check_contiguous-accepts, mask_round_trip}

-- 192.168.1.10
abbrev host : IPv4Address
host = record { address = 3232235786 }

parse-to_string_example : parse (to_string host) ≡ ok host
parse-to_string_example = parse-to_string host (omega arith)

-- "256" is refused at its third digit.
octet_refused : parse (50 ∷ 53 ∷ 54 ∷ []) ≡ throws octet_exceeds_255
unfolding parse scan scan_char
octet_refused = refl

-- 255.0.255.0
abbrev with_gap : IPv4Address
with_gap = record { address = 4278255360 }

check_contiguous-accepts_example :
    (check_contiguous with_gap ≡ ok (record { mask = 4278255360 }))
    ↔ ((p : ℕ) × (p ≤ 32) × (4278255360 ≡ prefix_mask p))
check_contiguous-accepts_example = check_contiguous-accepts with_gap (omega arith)

mask_round_trip_example :
    let s : SubnetMask = record { mask = prefix_mask 24 } in
    (of_prefix (pos 24) ≡ ok s) × (to_prefix_length s ≡ 24) × (parse_mask (mask_to_string s) ≡ ok s)
mask_round_trip_example = mask_round_trip 24 (omega arith)
