-- ===== src/Packet/Zeros.antt =====
-- Zero-filled storage, as `memset` leaves it.
use network_simulator_platfo.Common.{
  ℕ, zero, suc, ◌-◌, ◌≡◌, refl, ap, ◌∙◌, [], ◌∷◌, arith, length, drop,
}
use network_simulator_platfo.Common.Words.{Bytes}

unfoldable pub zeros : ℕ → Bytes
zeros zero = []
zeros (suc n) = 0 ∷ zeros n

pub length-zeros : (n : ℕ) → length (zeros n) ≡ n
unfolding zeros
length-zeros zero = refl
length-zeros (suc n) = ap suc (length-zeros n)

pub drop-zeros : (k n : ℕ) → drop k (zeros n) ≡ zeros (n - k)
unfolding zeros
drop-zeros zero n = ap zeros {x = n} {y = n - 0} (omega arith)
drop-zeros (suc k) zero = ap zeros {x = 0} {y = 0 - suc k} (omega arith)
drop-zeros (suc k) (suc n) = drop-zeros k n ∙ ap zeros {x = n - k} {y = suc n - suc k} (omega arith)
