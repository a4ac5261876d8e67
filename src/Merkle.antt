-- ===== src/Merkle.antt =====
-- core/merkle/merkle.go: the Merkle root of a list of byte slices. Slices are values here: an
-- `append(harray[i], harray[i+1]...)` that had room behind `harray[i]` would write there, which the
-- 32-byte results of the hash have not.
mod Level
pub mod Binding
pub mod Sorting
mod Tests
use blockchain.Common.{
  ℕ, zero, suc, ◌+◌, Bool, true, false, ◌&&◌, ◌||◌, Option, some, none, Bytes, List, [], ◌∷◌, ◌++◌,
  length, take, get_elem?, ltb, leb, ◌==◌, if◌then◌else◌,
}

-- MerkleLeafs
abbrev pub Leafs : Type 0
Leafs = List Bytes

-- A write at an index of a slice; out of range it would panic.
abbrev pub set : Leafs → ℕ → Bytes → Leafs
set [] i v = []
set (x ∷ xs) zero v = v ∷ xs
set (x ∷ xs) (suc i) v = x ∷ set xs i v

-- A read; the loop stays in range.
abbrev pub at : Leafs → ℕ → Bytes
at [] i = []
at (x ∷ xs) zero = x
at (x ∷ xs) (suc i) = at xs i

-- The inner loop, in place: `i` reads ahead of `over`, which ends as the length of the next level.
-- Fuel `len` is enough, since `i` grows by two.
unfoldable pub level_loop : (Bytes → Bytes) → ℕ → ℕ → ℕ → ℕ → Leafs → ℕ × Leafs
level_loop hash zero len i over harray = (over, harray)
level_loop hash (suc fuel) len i over harray =
    let pair = if ltb (i + 1) len then hash (at harray i ++ at harray (i + 1)) else at harray i in
    let rest = level_loop hash fuel len (i + 2) (over + 1) (set harray over pair) in
    if ltb i len then rest else (over, harray)

-- One round of the outer loop: `harray = harray[:overwriteIndex]` at its end.
unfoldable pub level : (Bytes → Bytes) → Leafs → Leafs
unfolding level_loop
level hash harray =
    let (over, harray') = level_loop hash (length harray) (length harray) 0 0 harray in
    take over harray'

-- The outer loop, with fuel for each round.
unfoldable pub root_loop : (Bytes → Bytes) → ℕ → Leafs → Option Bytes
unfolding level
root_loop hash zero harray = none
root_loop hash (suc fuel) harray =
    let rest = root_loop hash fuel (level hash harray) in
    if length harray == 1 then some (at harray 0) else rest

-- ComputeRoot; `none` is the error for no leaf, and fuel that ran out, which it does not.
unfoldable pub compute_root : (Bytes → Bytes) → Leafs → Option Bytes
unfolding root_loop
compute_root hash [] = none
compute_root hash (leaf ∷ []) = some leaf
compute_root hash (a ∷ b ∷ leafs) = root_loop hash (length (a ∷ b ∷ leafs)) (a ∷ b ∷ leafs)

-- `bytes.Compare(a, b) <= 0`
unfoldable pub bytes_leb : Bytes → Bytes → Bool
bytes_leb [] b = true
bytes_leb (x ∷ a) [] = false
bytes_leb (x ∷ a) (y ∷ b) = ltb x y || (x == y && bytes_leb a b)

-- `sort.Sort` by `Less`. Slices that compare equal are equal, so every sort gives this list.
unfoldable pub insert_sorted : Bytes → Leafs → Leafs
unfolding bytes_leb
insert_sorted x [] = x ∷ []
insert_sorted x (y ∷ ys) = if bytes_leb x y then x ∷ y ∷ ys else y ∷ insert_sorted x ys

unfoldable pub sort_byte_array : Leafs → Leafs
unfolding insert_sorted
sort_byte_array [] = []
sort_byte_array (x ∷ xs) = insert_sorted x (sort_byte_array xs)

unfoldable pub sort_and_compute_root : (Bytes → Bytes) → Leafs → Option Bytes
unfolding sort_byte_array compute_root
sort_and_compute_root hash leafs = compute_root hash (sort_byte_array leafs)
