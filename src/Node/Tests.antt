-- ===== src/Node/Tests.antt =====
-- Runs of a node (core-engine/src/network/node.cpp) on concrete inputs.
use network_simulator_platfo.Common.{◌-◌, ◌/◌, ◌^◌, ◌≡◌, ◌↔◌, refl, true, [], none, arith}
use network_simulator_platfo.Addressing.{IPv4Address, prefix_mask}
use network_simulator_platfo.Node.{Node, is_local}
use network_simulator_platfo.Node.Subnet.{is_local-prefix}

-- 192.168.1.10 in a network of 24 bits
abbrev host : Node
host = record {
  id = 1;
  name = [];
  ip = record { address = 3232235786 };
  mask = record { mask = 4294967040 };
  mac = [];
  rate_limiter = none;
}

-- 192.168.1.77
abbrev neighbour : IPv4Address
neighbour = record { address = 3232235853 }

mask_of_24 : 4294967040 ≡ prefix_mask 24
unfolding prefix_mask
mask_of_24 = refl

is_local-prefix_example :
    (is_local host neighbour ≡ true) ↔ (3232235786 / 2 ^ (32 - 24) ≡ 3232235853 / 2 ^ (32 - 24))
is_local-prefix_example =
    is_local-prefix host neighbour 24 (omega arith) (omega arith) (omega arith) mask_of_24
