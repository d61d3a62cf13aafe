-- ===== src/Router/Routes/Table.antt =====
-- The table that `compute_routes` (core-engine/src/network/router.cpp) fills in.
use mathlib.Core.List.{Memᴰ}
use network_simulator_platfo.Common.{
  ℕ, ◌<◌, ◌≡◌, ◌≢◌, ◌⊎◌, inl, inr, refl, ◌∙◌, sym, ap, subst, true, false, none, some, List, [],
  ◌∷◌, ◌++◌, All, arith, leb, ◌==◌, ◌||◌, Bool-cases, Option-cases, ==_iff, All_map, Memᴰ-append,
  All-append,
}
use network_simulator_platfo.Common.Map.{Map, find, nat_key}
use network_simulator_platfo.Common.Entries.{IsDistinct}
use network_simulator_platfo.Addressing.{IPv4Address, SubnetMask}
use network_simulator_platfo.Router.{RoutingTableEntry}
use network_simulator_platfo.Router.Routes.{inflated, first_hop, entry, fill}
use network_simulator_platfo.Router.Routes.Entry.{IsEntry, All-entry, entry_known}

module _ (node_to_ip : Map ℕ IPv4Address) (node_to_mask : Map ℕ SubnetMask) where
  -- What stands behind an entry.
  pub record IsFrom (fuel : ℕ) (parent : Map ℕ ℕ) (source : ℕ) (distances : Map ℕ ℕ)
      (e : RoutingTableEntry) : Type 0 where
    pub dest : ℕ
    pub hop : ℕ
    pub cost : ℕ
    pub at : find dest distances ≡ some cost
    pub other : dest ≢ source
    pub cheap : cost < inflated
    pub hops : first_hop fuel parent source dest ≡ some hop
    pub is_entry : IsEntry node_to_ip node_to_mask dest hop cost e

  module _ (fuel : ℕ) (parent : Map ℕ ℕ) (source : ℕ) where
    later :
        (v d : ℕ) (m : Map ℕ ℕ)
        → find v m ≡ none
        → (e : RoutingTableEntry) → IsFrom fuel parent source m e
        → IsFrom fuel parent source ((v, d) ∷ m) e
    unfolding find
    later v d m new e i = record {
      dest = i.dest;
      hop = i.hop;
      cost = i.cost;
      at = elim (Bool-cases (v == i.dest)) [
        | inl same ↦
            let v_is : v ≡ i.dest = (==_iff v i.dest).0 same in
            absurd (no_entry (sym new ∙ ap (λ w. find w m) v_is ∙ i.at))
        | inr behind ↦ rw behind i.at
      ];
      other = i.other;
      cheap = i.cheap;
      hops = i.hops;
      is_entry = i.is_entry;
    }
      where
        no_entry : {c : ℕ} → ¬ (none ≡ some c)
        no_entry h = cc

    own_entry :
        (v c hop : ℕ) (m : Map ℕ ℕ)
        → (v == source || leb inflated c) ≡ false
        → first_hop fuel parent source v ≡ some hop
        → (e : RoutingTableEntry) → IsEntry node_to_ip node_to_mask v hop c e
        → IsFrom fuel parent source ((v, c) ∷ m) e
    unfolding find
    own_entry v c hop m take hops e i = record {
      dest = v;
      hop = hop;
      cost = c;
      at = ground (arith, ==_iff v v);
      other = ground (arith, ==_iff v source);
      cheap = ground arith;
      hops = hops;
      is_entry = i;
    }

    -- What the loop does with its first distance.
    fill-cases :
        (v c : ℕ) (m : Map ℕ ℕ) (table : List RoutingTableEntry)
        → fill node_to_ip node_to_mask fuel parent source ((v, c) ∷ m) ≡ some table
        → ((v == source || leb inflated c ≡ true)
            × (fill node_to_ip node_to_mask fuel parent source m ≡ some table))
          ⊎ ((v == source || leb inflated c ≡ false)
              × (hop : ℕ) × (first_hop fuel parent source v ≡ some hop)
              × (rest : List RoutingTableEntry) × (fill node_to_ip node_to_mask fuel parent source m
                  ≡ some rest)
              × (entry node_to_ip node_to_mask v hop c ++ rest ≡ table))
    unfolding fill
    fill-cases v c m table h = elim (Bool-cases (v == source || leb inflated c)) [
      | inl skip ↦ inl (skip, rw (skip, fill) at h)
      | inr take ↦ elim (Option-cases (first_hop fuel parent source v)) [
        | inl e ↦ let stuck : none ≡ some table = rw (take, e, fill) at h in cc
        | inr (hop, e) ↦ elim (Option-cases (fill node_to_ip node_to_mask fuel parent source m)) [
          | inl f ↦ let stuck : none ≡ some table = rw (take, e, f, fill) at h in cc
          | inr (rest, f) ↦
              let is : some (entry node_to_ip node_to_mask v hop c ++ rest) ≡ some table =
                rw (take, e, f, fill) at h in
              inr (take, hop, e, rest, f, cc)
        ]
      ]
    ]

    -- Every entry of the table stands for a distance.
    pub fill-All :
        (m : Map ℕ ℕ) (table : List RoutingTableEntry)
        → IsDistinct m
        → fill node_to_ip node_to_mask fuel parent source m ≡ some table
        → All (IsFrom fuel parent source m) table
    unfolding fill
    fill-All [] table d h =
        let same : [] ≡ table = cc in subst (All (IsFrom fuel parent source [])) same tt
    fill-All ((v, c) ∷ m) table d h = elim (fill-cases v c m table h) [
      | inl (skip, f) ↦ All_map table (later v c m d.0) (fill-All m table d.1 f)
      | inr (take, hop, e, rest, f, same) ↦
          subst (All (IsFrom fuel parent source ((v, c) ∷ m))) same (
            All-append _ (entry node_to_ip node_to_mask v hop c) rest
              (All_map (entry node_to_ip node_to_mask v hop c) (own_entry v c hop m take e)
                (All-entry node_to_ip node_to_mask v hop c))
              (All_map rest (later v c m d.0) (fill-All m rest d.1 f)))
    ]

    -- The table is complete: a destination whose addresses are known has its entry.
    pub fill-Memᴰ :
        (m : Map ℕ ℕ) (table : List RoutingTableEntry) (dest hop cost : ℕ) (next ip : IPv4Address)
        (mask : SubnetMask)
        → fill node_to_ip node_to_mask fuel parent source m ≡ some table
        → find dest m ≡ some cost
        → dest ≢ source
        → cost < inflated
        → first_hop fuel parent source dest ≡ some hop
        → find hop node_to_ip ≡ some next
        → find dest node_to_ip ≡ some ip
        → find dest node_to_mask ≡ some mask
        → (e : RoutingTableEntry) × Memᴰ e table × IsEntry node_to_ip node_to_mask dest hop cost e
    unfolding fill find
    fill-Memᴰ [] table dest hop cost next ip mask h at other cheap hops k1 k2 k3 = cc
    fill-Memᴰ ((v, c) ∷ m) table dest hop cost next ip mask h at other cheap hops k1 k2 k3 =
        elim (fill-cases v c m table h) [
          | inl (skip, f) ↦
              fill-Memᴰ m table dest hop cost next ip mask f (ground (arith, ==_iff v dest)) other
                cheap hops k1 k2 k3
          | inr (take, hop', e, rest, f, same) ↦ elim (Bool-cases (v == dest)) [
            | inr behind ↦
                let (x, there, is) =
                  fill-Memᴰ m rest dest hop cost next ip mask f (ground arith) other cheap hops k1
                    k2 k3 in
                (x, subst (Memᴰ x) same (Memᴰ-append x _ there), is)
            | inl own ↦
                let v_is : v ≡ dest = (==_iff v dest).0 own in
                let c_is : c ≡ cost = ground arith in
                let found : first_hop fuel parent source v ≡ some hop =
                  subst (λ w. first_hop fuel parent source w ≡ some hop) (sym v_is) hops in
                let hop_is : hop' ≡ hop = cc in
                let (x, is_one, is) =
                  entry_known node_to_ip node_to_mask dest hop cost next ip mask k1 k2 k3 in
                let one : entry node_to_ip node_to_mask v hop' c ≡ x ∷ [] =
                  rw (v_is, hop_is, c_is) is_one in
                (x, subst (Memᴰ x) (ap (λ own. own ++ rest) (sym one) ∙ same) (Memᴰ.head refl), is)
          ]
        ]

    -- The loop ends where the loops along the parents do.
    pub fill_ends :
        (m : Map ℕ ℕ)
        → IsDistinct m
        → ((v c : ℕ)
            → find v m ≡ some c
            → v ≢ source
            → c < inflated
            → (hop : ℕ) × (first_hop fuel parent source v ≡ some hop))
        → (table : List RoutingTableEntry) × (fill node_to_ip node_to_mask fuel parent source m
            ≡ some table)
    unfolding fill find
    fill_ends [] d hops = ([], refl)
    fill_ends ((v, c) ∷ m) d hops =
        let (rest, f) = fill_ends m d.1 (λ w k e. hops w k (ground (arith, d.0, e, ==_iff v w))) in
        elim (Bool-cases (v == source || leb inflated c)) [
          | inl skip ↦ (rest, rw (skip, fill) f)
          | inr take ↦
              let (hop, e) =
                hops v c (ground (arith, ==_iff v v)) (ground (arith, ==_iff v source))
                  (ground arith) in
              (entry node_to_ip node_to_mask v hop c ++ rest, rw (take, e, f, fill) refl)
        ]
