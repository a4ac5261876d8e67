-- ===== src/Merkle/Tests.antt =====
-- Runs of the theorems on Merkle trees.
use mathlib.Core.List.{Permᴰ}
use blockchain.Common.{◌≡◌, refl, ◌⊎◌, Bytes, [], ◌∷◌, length, some, none}
use blockchain.Merkle.{Leafs, level, compute_root, sort_and_compute_root}
use blockchain.Merkle.Level.{IsRoot, pair_up, level-pair_up, compute_root-IsRoot}
use blockchain.Merkle.Binding.{Collision, compute_root_binds}
use blockchain.Merkle.Sorting.{sort_and_compute_root-Perm}

-- A hash of two bytes, by the length and the first byte alone.
abbrev toy_hash : Bytes → Bytes
toy_hash [] = 0 ∷ 0 ∷ []
toy_hash (b ∷ bs) = length (b ∷ bs) ∷ b ∷ []

length-toy_hash : (x : Bytes) → length (toy_hash x) ≡ 2
length-toy_hash [] = refl
length-toy_hash (b ∷ bs) = refl

abbrev three : Leafs
three = (1 ∷ 2 ∷ []) ∷ (3 ∷ 4 ∷ []) ∷ (5 ∷ 6 ∷ []) ∷ []

level-pair_up_example : level toy_hash three ≡ pair_up toy_hash three
level-pair_up_example = level-pair_up toy_hash three

compute_root-IsRoot_example :
    ((three ≡ []) × (compute_root toy_hash three ≡ none))
    ⊎ ((root : Bytes) × (compute_root toy_hash three ≡ some root) × IsRoot toy_hash three root)
compute_root-IsRoot_example = compute_root-IsRoot toy_hash three

-- Another list with the root of `three`.
abbrev others : Leafs
others = (1 ∷ 2 ∷ []) ∷ (3 ∷ 5 ∷ []) ∷ (5 ∷ 6 ∷ []) ∷ []

compute_root_binds_example : (three ≡ others) ⊎ Collision toy_hash
unfolding compute_root
compute_root_binds_example =
    compute_root_binds toy_hash 2 length-toy_hash three others (4 ∷ 4 ∷ []) refl
      (refl, (refl, (refl, tt))) (refl, (refl, (refl, tt))) refl refl

-- Leaves and nodes are hashed alike.
leaf_or_node :
    compute_root toy_hash ((1 ∷ 2 ∷ []) ∷ (3 ∷ 4 ∷ []) ∷ [])
    ≡ compute_root toy_hash (toy_hash (1 ∷ 2 ∷ 3 ∷ 4 ∷ []) ∷ [])
unfolding compute_root
leaf_or_node = refl

swapped : Permᴰ {A = Bytes} ((3 ∷ 4 ∷ []) ∷ (1 ∷ 2 ∷ []) ∷ []) ((1 ∷ 2 ∷ []) ∷ (3 ∷ 4 ∷ []) ∷ [])
swapped = Permᴰ.swap refl refl

sort_and_compute_root-Perm_example :
    sort_and_compute_root toy_hash ((3 ∷ 4 ∷ []) ∷ (1 ∷ 2 ∷ []) ∷ [])
    ≡ sort_and_compute_root toy_hash ((1 ∷ 2 ∷ []) ∷ (3 ∷ 4 ∷ []) ∷ [])
sort_and_compute_root-Perm_example = sort_and_compute_root-Perm toy_hash (∥◌∥₁.∣◌∣₁ swapped)
