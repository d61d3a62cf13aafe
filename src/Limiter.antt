-- ===== src/Limiter.antt =====
-- The GCRA rate limiter: core-engine/include/network/rate_limiter.hpp. `allow` is the call of one
-- thread alone; `Threads` has the compare-and-swap loop with any number of threads.
pub mod Threads
pub mod Rate
pub mod Burst
mod Tests
use network_simulator_platfo.Common.{
  ℕ, ◌+◌, ◌-◌, Bool, true, false, ◌&&◌, Option, none, some, List, [], ◌∷◌, max, ltb, if◌then◌else◌,
}
use network_simulator_platfo.Common.Words.{add64}

-- Times are in nanoseconds.
pub record GcraRateLimiter : Type 0 where
  pub emission_interval_ns : ℕ
  pub tolerance_ns : ℕ
  pub tat_ns : ℕ

-- The type `double`, of which the constructor uses this much.
pub record Double : Type 1 where
  pub Carrier : Type 0
  pub one : Carrier
  pub billion : Carrier
  pub sub : Carrier → Carrier → Carrier
  pub mul : Carrier → Carrier → Carrier
  pub div : Carrier → Carrier → Carrier
  pub of_u64 : ℕ → Carrier
  pub to_u64 : Carrier → ℕ

-- `GcraRateLimiter(rate_per_second, burst_capacity)`
unfoldable pub make : (d : Double) → d.Carrier → d.Carrier → GcraRateLimiter
make d rate_per_second burst_capacity =
    let emission = d.to_u64 (d.div d.billion rate_per_second) in
    record {
      emission_interval_ns = emission;
      tolerance_ns = d.to_u64 (d.mul (d.sub burst_capacity d.one) (d.of_u64 emission));
      tat_ns = 0;
    }

-- One round of the loop of `allow` at time t, up to the compare-and-swap: `none` if the packet is
-- refused, else the value to be written.
unfoldable pub admit : GcraRateLimiter → ℕ → ℕ → Option ℕ
admit l t current_tat =
    if ltb t current_tat && ltb l.tolerance_ns (current_tat - t)
    then none
    else some (add64 (max t current_tat) l.emission_interval_ns)

-- `allow` at time t, where no other thread writes.
unfoldable pub allow : GcraRateLimiter → ℕ → GcraRateLimiter × Bool
unfolding admit
allow l t = elim (admit l t l.tat_ns) [
  | none ↦ (l, false)
  | some new_tat ↦ (record l { tat_ns = new_tat }, true)
]

-- The packets that arrive at the given times, one after the other: which of them pass.
unfoldable pub allow_all : GcraRateLimiter → List ℕ → List Bool × GcraRateLimiter
allow_all l [] = ([], l)
allow_all l (t ∷ ts) =
    let (l', passed) = allow l t in let (rest, l'') = allow_all l' ts in (passed ∷ rest, l'')
