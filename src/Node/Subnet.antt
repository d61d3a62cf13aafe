-- ===== src/Node/Subnet.antt =====
-- Which addresses are local to a node (core-engine/src/network/node.cpp).
use network_simulator_platfo.Common.{
  ℕ, ◌-◌, ◌/◌, ◌^◌, ◌≤◌, ◌<◌, ◌≡◌, ◌↔◌, ◌∙◌, sym, ap, true, ==_iff,
}
use Prim.Native.Nat.{bit_and}
use network_simulator_platfo.Addressing.{IPv4Address, prefix_mask}
use network_simulator_platfo.Addressing.Prefix.{same_prefix}
use network_simulator_platfo.Node.{Node, is_local}

-- With the mask of a prefix length up to 32 and addresses below 2 ^ 32, a node takes an address for
-- local exactly where the address and its own have the same leading bits, as many as the prefix is
-- long.
pub is_local-prefix :
    (n : Node) (target : IPv4Address) (p : ℕ)
    → n.ip.address < 2 ^ 32
    → target.address < 2 ^ 32
    → p ≤ 32
    → n.mask.mask ≡ prefix_mask p
    → (is_local n target ≡ true) ↔ (n.ip.address / 2 ^ (32 - p) ≡ target.address / 2 ^ (32 - p))
unfolding is_local
is_local-prefix n target p h k bound e =
    let kept = same_prefix n.ip.address target.address p h k bound in
    let tested = ==_iff (bit_and n.ip.address n.mask.mask) (bit_and target.address n.mask.mask) in
    (
      λ same. kept.0 (at_mask (prefix_mask p) e (tested.0 same)),
      λ same. tested.1 (rw e (kept.1 same)),
    )
  where
    at_mask :
        (m : ℕ)
        → n.mask.mask ≡ m
        → bit_and n.ip.address n.mask.mask ≡ bit_and target.address n.mask.mask
        → bit_and n.ip.address m ≡ bit_and target.address m
    at_mask m f same = ap (bit_and n.ip.address) (sym f) ∙ same ∙ ap (bit_and target.address) f
