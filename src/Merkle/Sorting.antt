-- ===== src/Merkle/Sorting.antt =====
-- The order of `SortByteArray` and the root of `SortAndComputeRoot` of core/merkle/merkle.go.
use mathlib.Core.List.{Perm, Permᴰ, is_set}
use mathlib.Core.Logic.{∥∥₁_elim}
use native.Mathlib.Nat.{ℕ_set}
use blockchain.Common.{◌≡◌, refl, ap, ◌∙◌, arith, true, false, Bytes, [], ◌∷◌}
use blockchain.Merkle.{
  Leafs, bytes_leb, insert_sorted, sort_byte_array, compute_root, sort_and_compute_root,
}

bytes_leb_total : (a b : Bytes) → bytes_leb a b ≡ false → bytes_leb b a ≡ true
unfolding bytes_leb
bytes_leb_total [] b h = cc
bytes_leb_total (x ∷ a) [] h = refl
bytes_leb_total (x ∷ a) (y ∷ b) h = ground (arith, bytes_leb_total a b)

bytes_leb_antisymm : (a b : Bytes) → bytes_leb a b ≡ true → bytes_leb b a ≡ true → a ≡ b
unfolding bytes_leb
bytes_leb_antisymm [] [] h k = refl
bytes_leb_antisymm [] (y ∷ b) h k = cc
bytes_leb_antisymm (x ∷ a) [] h k = cc
bytes_leb_antisymm (x ∷ a) (y ∷ b) h k = ground (arith, bytes_leb_antisymm a b)

bytes_leb_trans :
    (a b c : Bytes) → bytes_leb a b ≡ true → bytes_leb b c ≡ true → bytes_leb a c ≡ true
unfolding bytes_leb
bytes_leb_trans [] b c h k = refl
bytes_leb_trans (x ∷ a) [] c h k = cc
bytes_leb_trans (x ∷ a) (y ∷ b) [] h k = cc
bytes_leb_trans (x ∷ a) (y ∷ b) (z ∷ c) h k = ground (arith, bytes_leb_trans a b c)

insert_sorted_comm :
    (a b : Bytes) (xs : Leafs)
    → insert_sorted a (insert_sorted b xs) ≡ insert_sorted b (insert_sorted a xs)
unfolding insert_sorted
insert_sorted_comm a b [] = ground (arith, bytes_leb_total a b, bytes_leb_antisymm a b)
insert_sorted_comm a b (x ∷ xs) = ground (
  arith,
  bytes_leb_total a b,
  bytes_leb_antisymm a b,
  bytes_leb_total b a,
  bytes_leb_trans a b x,
  bytes_leb_trans b a x,
  insert_sorted_comm a b xs,
)

sort_byte_array-Permᴰ : {xs ys : Leafs} → Permᴰ xs ys → sort_byte_array xs ≡ sort_byte_array ys
unfolding sort_byte_array
sort_byte_array-Permᴰ Permᴰ.nil = refl
sort_byte_array-Permᴰ (Permᴰ.cons e p) = rw (e, sort_byte_array-Permᴰ p)
sort_byte_array-Permᴰ (Permᴰ.swap {l = l} e f) =
    rw (e, f) (insert_sorted_comm _ _ (sort_byte_array l))
sort_byte_array-Permᴰ (Permᴰ.trans p q) = sort_byte_array-Permᴰ p ∙ sort_byte_array-Permᴰ q

-- Leaves in another order have the same sorted root.
pub sort_and_compute_root-Perm :
    (hash : Bytes → Bytes) {xs ys : Leafs}
    → Perm xs ys
    → sort_and_compute_root hash xs ≡ sort_and_compute_root hash ys
unfolding sort_and_compute_root
sort_and_compute_root-Perm hash p =
    ap (compute_root hash) (∥∥₁_elim p (is_set (is_set ℕ_set) _ _) sort_byte_array-Permᴰ)
