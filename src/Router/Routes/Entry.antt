-- ===== src/Router/Routes/Entry.antt =====
-- The entry that `compute_routes` (core-engine/src/network/router.cpp) writes for a destination.
use Prim.Native.Nat.{bit_and}
use network_simulator_platfo.Common.{ℕ, ◌≡◌, inl, inr, refl, some, [], ◌∷◌, All, Option-cases}
use network_simulator_platfo.Common.Map.{Map, find, nat_key}
use network_simulator_platfo.Addressing.{IPv4Address, SubnetMask}
use network_simulator_platfo.Router.{RoutingTableEntry}
use network_simulator_platfo.Router.Routes.{entry, interface}

-- An entry for a destination through a next hop, with the destination's subnet.
pub record IsEntry (node_to_ip : Map ℕ IPv4Address) (node_to_mask : Map ℕ SubnetMask)
    (dest hop total_cost : ℕ) (e : RoutingTableEntry) : Type 0 where
  pub ip : IPv4Address
  pub has_ip : find dest node_to_ip ≡ some ip
  pub has_mask : find dest node_to_mask ≡ some e.mask
  pub subnet : e.destination_subnet.address ≡ bit_and ip.address e.mask.mask
  pub next_hop : e.next_hop_id ≡ hop
  pub cost : e.metric ≡ total_cost
  pub on_interface : e.interface_name ≡ interface

module _ (node_to_ip : Map ℕ IPv4Address) (node_to_mask : Map ℕ SubnetMask) where
  pub All-entry :
      (dest hop total_cost : ℕ)
      → All
          (IsEntry node_to_ip node_to_mask dest hop total_cost)
          (entry node_to_ip node_to_mask dest hop total_cost)
  unfolding entry
  All-entry dest hop c = elim (Option-cases (find hop node_to_ip)) [
    | inl e ↦ rw (e, entry) tt
    | inr (next, e) ↦ elim (Option-cases (find dest node_to_ip)) [
      | inl f ↦ rw (e, f, entry) tt
      | inr (ip, f) ↦ elim (Option-cases (find dest node_to_mask)) [
        | inl g ↦ rw (e, f, g, entry) tt
        | inr (m, g) ↦
            rw (e, f, g, entry)
              (
                record {
                  ip = ip;
                  has_ip = f;
                  has_mask = g;
                  subnet = refl;
                  next_hop = refl;
                  cost = refl;
                  on_interface = refl;
                },
                tt,
              )
      ]
    ]
  ]

  pub entry_known :
      (dest hop cost : ℕ) (next ip : IPv4Address) (mask : SubnetMask)
      → find hop node_to_ip ≡ some next
      → find dest node_to_ip ≡ some ip
      → find dest node_to_mask ≡ some mask
      → (e : RoutingTableEntry) × (entry node_to_ip node_to_mask dest hop cost ≡ e ∷ [])
        × IsEntry node_to_ip node_to_mask dest hop cost e
  unfolding entry
  entry_known dest hop cost next ip mask k1 k2 k3 =
      let one : RoutingTableEntry = record {
        destination_subnet = record { address = bit_and ip.address mask.mask };
        mask = mask;
        next_hop_id = hop;
        interface_name = interface;
        metric = cost;
      } in
      (
        one,
        rw (k1, k2, k3, entry) refl,
        record {
          ip = ip;
          has_ip = k2;
          has_mask = k3;
          subnet = refl;
          next_hop = refl;
          cost = refl;
          on_interface = refl;
        },
      )
