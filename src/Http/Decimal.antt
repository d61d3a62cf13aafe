-- ===== src/Http/Decimal.antt =====
-- `std::stoul` (in core-engine/src/protocols/http_sim.cpp) reads back what `operator<<` writes for an
-- unsigned number.
use network_simulator_platfo.Common.{
  ℕ, zero, suc, ◌+◌, ◌/◌, ◌%◌, ◌^◌, ◌<◌, ◌≤◌, ◌≡◌, refl, ◌∙◌, true, some, [], ◌∷◌, arith, ltb,
  Bool-cases, All, inl, inr,
}
use network_simulator_platfo.Common.Words.{Bytes}
use network_simulator_platfo.Common.Decimal.{write_digits, to_decimal}
use network_simulator_platfo.Http.Number.{is_digit, read_digits, starts_with_digit, stoul}

read_digits-write_digits :
    (fuel n : ℕ) (written : Bytes)
    → n ≤ fuel
    → read_digits 0 (write_digits (suc fuel) n written) ≡ read_digits n written
unfolding read_digits write_digits
read_digits-write_digits zero n written h = ground arith
read_digits-write_digits (suc fuel) n written h = elim (Bool-cases (ltb n 10)) [
  | inl small ↦ rw (small, write_digits) (ground arith)
  | inr large ↦
      rw (large, write_digits)
        (read_digits-write_digits fuel (n / 10) ((b'0' + n % 10) ∷ written) (omega (arith, large))
          ∙ ground arith)
]

digits-first :
    (fuel n : ℕ) (written : Bytes) → starts_with_digit (write_digits (suc fuel) n written) ≡ true
unfolding starts_with_digit write_digits
digits-first zero n written = ground arith
digits-first (suc fuel) n written = elim (Bool-cases (ltb n 10)) [
  | inl small ↦ rw (small, write_digits) (ground arith)
  | inr large ↦ rw (large, write_digits) (digits-first fuel (n / 10) ((b'0' + n % 10) ∷ written))
]

stoul_digits :
    (cs : Bytes)
    → starts_with_digit cs ≡ true
    → read_digits 0 cs < 2 ^ 64
    → stoul cs ≡ some (read_digits 0 cs)
unfolding stoul starts_with_digit
stoul_digits [] h k = cc
stoul_digits (c ∷ cs) h k = ground arith

pub stoul-to_decimal : (n : ℕ) → n < 2 ^ 64 → stoul (to_decimal n) ≡ some n
unfolding to_decimal read_digits
stoul-to_decimal n h =
    let read = read_digits-write_digits n n [] (omega arith) in
    stoul_digits (to_decimal n) (digits-first n n []) (omega (arith, read)) ∙ rw read refl

All-write_digits :
    (fuel n : ℕ) (written : Bytes)
    → All (λ c. is_digit c ≡ true) written
    → All (λ c. is_digit c ≡ true) (write_digits fuel n written)
unfolding write_digits
All-write_digits zero n written a = a
All-write_digits (suc fuel) n written a =
    let one : is_digit (b'0' + n % 10) ≡ true = ground arith in
    elim (Bool-cases (ltb n 10)) [
      | inl small ↦ rw (small, write_digits) (one, a)
      | inr large ↦ rw (large, write_digits) (All-write_digits fuel (n / 10) _ (one, a))
    ]

-- What is written are digits.
pub to_decimal-All : (n : ℕ) → All (λ c. is_digit c ≡ true) (to_decimal n)
unfolding to_decimal
to_decimal-All n = All-write_digits (suc n) n [] tt
