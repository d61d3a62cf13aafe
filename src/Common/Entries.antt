-- ===== src/Common/Entries.antt =====
-- Maps with one entry for each key, and their sizes.
use network_simulator_platfo.Common.{suc, ◌≡◌, refl, none, some, [], ◌∷◌, arith, length}
use network_simulator_platfo.Common.Map.{Map, Key, find, assign, erase, find-assign, find-erase}

module _ {K V : Type 0} ⦃e : Key K⦄ where
  -- No key has two entries.
  abbrev pub IsDistinct : Map K V → Type 0
  IsDistinct [] = Unit {0}
  IsDistinct ((k, v) ∷ m) = (find k m ≡ none) × IsDistinct m

  pub erase-missing : (k : K) (m : Map K V) → find k m ≡ none → erase k m ≡ m
  unfolding find erase
  erase-missing k [] h = refl
  erase-missing k ((j, v) ∷ m) h = ground (arith, erase-missing k m)

  pub erase-IsDistinct : (k : K) (m : Map K V) → IsDistinct m → IsDistinct (erase k m)
  unfolding find erase
  erase-IsDistinct k [] d = tt
  erase-IsDistinct k ((j, v) ∷ m) d = ground (arith, erase-IsDistinct k m, find-erase k j m)

  pub length-erase :
      (k : K) (m : Map K V) (v : V)
      → IsDistinct m
      → find k m ≡ some v
      → suc (length (erase k m)) ≡ length m
  unfolding find erase
  length-erase k [] v d h = cc
  length-erase k ((j, w) ∷ m) v d h =
      ground (arith, length-erase k m v, erase-missing k m, e.beq_iff j k)

  pub assign-IsDistinct : (k : K) (v : V) (m : Map K V) → IsDistinct m → IsDistinct (assign k v m)
  unfolding find assign
  assign-IsDistinct k v [] d = (refl, tt)
  assign-IsDistinct k v ((j, w) ∷ m) d =
      ground (arith, assign-IsDistinct k v m, find-assign k j v m, e.beq_iff j k, e.beq_iff k j)

  pub length-assign_new :
      (k : K) (v : V) (m : Map K V) → find k m ≡ none → length (assign k v m) ≡ suc (length m)
  unfolding find assign
  length-assign_new k v [] h = refl
  length-assign_new k v ((j, w) ∷ m) h = ground (arith, length-assign_new k v m)

  pub length-assign_old :
      (k : K) (v w : V) (m : Map K V) → find k m ≡ some w → length (assign k v m) ≡ length m
  unfolding find assign
  length-assign_old k v w [] h = cc
  length-assign_old k v w ((j, u) ∷ m) h = ground (arith, length-assign_old k v w m)
