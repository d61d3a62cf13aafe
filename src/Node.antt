-- ===== src/Node.antt =====
-- Network nodes: core-engine/include/network/node.hpp and core-engine/src/network/node.cpp.
pub mod Subnet
mod Tests
use Prim.Native.Nat.{bit_and}
use network_simulator_platfo.Common.{ℕ, Bool, true, false, Option, none, some, ◌==◌}
use network_simulator_platfo.Common.Words.{Bytes}
use network_simulator_platfo.Addressing.{IPv4Address, SubnetMask}
use network_simulator_platfo.Limiter.{GcraRateLimiter, Double, allow}
use network_simulator_platfo.Limiter

pub record Node : Type 0 where
  pub id : ℕ
  pub name : Bytes
  pub ip : IPv4Address
  pub mask : SubnetMask
  pub mac : Bytes
  -- `none` for the null pointer
  pub rate_limiter : Option GcraRateLimiter

-- `Node(id, name, ip, mask, mac)`
unfoldable pub make : ℕ → Bytes → IPv4Address → SubnetMask → Bytes → Node
make id name ip mask mac = record {
  id = id;
  name = name;
  ip = ip;
  mask = mask;
  mac = mac;
  rate_limiter = none;
}

unfoldable pub is_local : Node → IPv4Address → Bool
is_local n target_ip =
    let mask_val = n.mask.mask in
    let local_subnet = bit_and n.ip.address mask_val in
    let target_subnet = bit_and target_ip.address mask_val in local_subnet == target_subnet

unfoldable pub enable_rate_limiting : (d : Double) → Node → d.Carrier → d.Carrier → Node
unfolding Limiter.make
enable_rate_limiting d n rate_per_sec burst_capacity = record n {
  rate_limiter = some (Limiter.make d rate_per_sec burst_capacity);
}

-- `receive_packet` at time t.
unfoldable pub receive_packet : Node → ℕ → Node × Bool
unfolding allow
receive_packet n t = elim n.rate_limiter [
  | none ↦ (n, true)
  | some limiter ↦
      let (limiter', passed) = allow limiter t in
      (record n { rate_limiter = some limiter' }, passed)
]
