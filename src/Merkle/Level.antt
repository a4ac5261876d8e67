-- ===== src/Merkle/Level.antt =====
-- The loops of `ComputeRoot` of core/merkle/merkle.go against the tree of hashes.
use blockchain.Common.{
  ℕ, zero, suc, ◌+◌, ◌/◌, ◌≤◌, ◌≡◌, refl, sym, ap, ◌⊎◌, true, false, ◌∙◌, arith, some, none, Bytes,
  [], ◌∷◌, ◌++◌, append_assoc, append-nil, length, length-append, take, take-append_self, ltb, ◌==◌,
  inl, inr,
}
use blockchain.Merkle.{Leafs, set, at, level_loop, level, root_loop, compute_root}

-- Neighbours hashed together; the last one of an odd number goes up as it is.
abbrev pub pair_up : (Bytes → Bytes) → Leafs → Leafs
pair_up hash [] = []
pair_up hash (a ∷ []) = a ∷ []
pair_up hash (a ∷ b ∷ rest) = hash (a ++ b) ∷ pair_up hash rest

pub length-pair_up :
    (hash : Bytes → Bytes) (xs : Leafs) → length (pair_up hash xs) ≡ (length xs + 1) / 2
length-pair_up hash [] = omega arith
length-pair_up hash (a ∷ []) = omega arith
length-pair_up hash (a ∷ b ∷ rest) = omega (arith, length-pair_up hash rest)

at-append : (xs ys : Leafs) (k i : ℕ) → length xs + k ≡ i → at (xs ++ ys) i ≡ at ys k
at-append [] ys k i e = let e' : i ≡ k = omega arith in rw e'
at-append (x ∷ xs) ys k zero e = absurd (omega arith)
at-append (x ∷ xs) ys k (suc i) e = at-append xs ys k i (omega arith)

set-append :
    (xs ys : Leafs) (i : ℕ) (v : Bytes) → length xs ≡ i → set (xs ++ ys) i v ≡ xs ++ set ys 0 v
set-append [] ys i v e = let e' : i ≡ 0 = omega arith in rw e'
set-append (x ∷ xs) ys zero v e = absurd (omega arith)
set-append (x ∷ xs) ys (suc i) v e = ap (◌∷◌ x) (set-append xs ys i v (omega arith))

-- The slice that the loop's results stand for.
abbrev taken : ℕ × Leafs → Leafs
taken (over, harray) = take over harray

loop_stops :
    (hash : Bytes → Bytes) (fuel len i over : ℕ) (harray : Leafs)
    → len ≤ i
    → level_loop hash fuel len i over harray ≡ (over, harray)
unfolding level_loop
loop_stops hash zero len i over harray h = refl
loop_stops hash (suc fuel) len i over harray h = ground arith

taken_done : (done junk : Leafs) (over : ℕ) → length done ≡ over → take over (done ++ junk) ≡ done
taken_done done junk over e = rw (← e) (take-append_self done junk)

abbrev tail : Leafs → Leafs
tail [] = []
tail (x ∷ xs) = xs

-- Writing over the first place behind `done`.
write_next :
    (done junk xs r : Leafs) (a v : Bytes) (over : ℕ)
    → length done ≡ over
    → set (done ++ (junk ++ (a ∷ (xs ++ r)))) over v
      ≡ (done ++ (v ∷ [])) ++ (tail (junk ++ (a ∷ xs)) ++ r)
write_next done [] xs r a v over e =
    set-append done _ over v e ∙ sym (append_assoc done (v ∷ []) (xs ++ r))
write_next done (j ∷ js) xs r a v over e =
    set-append done _ over v e
    ∙ ap (λ t. done ++ (v ∷ t)) (sym (append_assoc js (a ∷ xs) r))
    ∙ sym (append_assoc done (v ∷ []) _)

length-tail :
    (junk xs : Leafs) (a : Bytes) → length (tail (junk ++ (a ∷ xs))) ≡ length junk + length xs
length-tail [] xs a = omega arith
length-tail (j ∷ js) xs a = omega (arith, length-append js (a ∷ xs))

-- The two slices that a round reads.
read_next :
    (done junk rest : Leafs) (k i : ℕ)
    → length done + length junk + k ≡ i
    → at (done ++ (junk ++ rest)) i ≡ at rest k
read_next done junk rest k i e =
    at-append done (junk ++ rest) (length junk + k) i (omega arith) ∙ at-append junk rest k _ refl

-- `done` is written, `junk` is read and not yet written over, `rest` is not yet read.
level_loop-pair_up :
    (hash : Bytes → Bytes) (fuel : ℕ) (rest done junk : Leafs) (len i over : ℕ)
    → length done ≡ over
    → length done + length junk ≡ i
    → i + length rest ≡ len
    → length rest ≤ fuel
    → taken (level_loop hash fuel len i over (done ++ (junk ++ rest))) ≡ done ++ pair_up hash rest
unfolding level_loop
level_loop-pair_up hash fuel [] done junk len i over eo ei el ef =
    rw (loop_stops hash fuel len i over (done ++ (junk ++ [])) (omega arith), append-nil done)
      (taken_done done _ over eo)
level_loop-pair_up hash zero (a ∷ r) done junk len i over eo ei el ef = absurd (omega arith)
level_loop-pair_up hash (suc fuel) (a ∷ []) done junk len i over eo ei el ef =
    let inside : ltb i len ≡ true = ground arith in
    let alone : ltb (i + 1) len ≡ false = ground arith in
    rw
      (
        inside,
        alone,
        read_next done junk (a ∷ []) 0 i (omega arith),
        write_next done junk [] [] a a over eo,
        loop_stops hash fuel len (i + 2) (over + 1) _ (omega arith),
      )
      (taken_done (done ++ (a ∷ [])) _ (over + 1) (omega (arith, length-append done (a ∷ []))))
level_loop-pair_up hash (suc fuel) (a ∷ b ∷ r) done junk len i over eo ei el ef =
    let inside : ltb i len ≡ true = ground arith in
    let both : ltb (i + 1) len ≡ true = ground arith in
    let v = hash (a ++ b) in
    let junk' = tail (junk ++ (a ∷ b ∷ [])) in
    rw
      (
        inside,
        both,
        read_next done junk (a ∷ b ∷ r) 0 i (omega arith),
        read_next done junk (a ∷ b ∷ r) 1 (i + 1) (omega arith),
        write_next done junk (b ∷ []) r a v over eo,
      )
      (level_loop-pair_up hash fuel r (done ++ (v ∷ [])) junk' len (i + 2) (over + 1)
          (omega (arith, length-append done (v ∷ [])))
          (omega (arith, length-append done (v ∷ []), length-tail junk (b ∷ []) a)) (omega arith)
          (omega arith)
        ∙ append_assoc done (v ∷ []) (pair_up hash r))

-- A round of the outer loop, in place, is the next level of the tree.
pub level-pair_up : (hash : Bytes → Bytes) (xs : Leafs) → level hash xs ≡ pair_up hash xs
unfolding level
level-pair_up hash xs =
    level_loop-pair_up hash (length xs) xs [] [] (length xs) 0 0 (omega arith) (omega arith)
      (omega arith) (omega arith)

-- The tree: `root` is the hash that the levels above `xs` end in.
pub data IsRoot (hash : Bytes → Bytes) : Leafs → Bytes → Type 0 where
  leaf : (a : Bytes) → IsRoot hash (a ∷ []) a
  node :
      (a b : Bytes) (rest : Leafs) (root : Bytes)
      → IsRoot hash (pair_up hash (a ∷ b ∷ rest)) root
      → IsRoot hash (a ∷ b ∷ rest) root

root_loop-IsRoot :
    (hash : Bytes → Bytes) (fuel : ℕ) (a : Bytes) (xs : Leafs)
    → length (a ∷ xs) ≤ fuel
    → (root : Bytes) × (root_loop hash fuel (a ∷ xs) ≡ some root) × IsRoot hash (a ∷ xs) root
unfolding root_loop
root_loop-IsRoot hash zero a xs h = absurd (omega arith)
root_loop-IsRoot hash (suc fuel) a [] h = (a, refl, leaf a)
root_loop-IsRoot hash (suc fuel) a (b ∷ rest) h =
    let more : (length (a ∷ b ∷ rest) == 1) ≡ false = ground arith in
    let (root, e, t) =
      root_loop-IsRoot hash fuel (hash (a ++ b)) (pair_up hash rest)
        (omega (arith, length-pair_up hash rest)) in
    (root, rw (more, level-pair_up hash (a ∷ b ∷ rest)) e, node a b rest root t)

-- `ComputeRoot` fails on no leaf alone. Else its loops end, and the result is the root of the tree
-- in which each level hashes neighbours together and hands up the last of an odd number.
pub compute_root-IsRoot :
    (hash : Bytes → Bytes) (xs : Leafs)
    → ((xs ≡ []) × (compute_root hash xs ≡ none))
      ⊎ ((root : Bytes) × (compute_root hash xs ≡ some root) × IsRoot hash xs root)
unfolding compute_root
compute_root-IsRoot hash [] = inl (refl, refl)
compute_root-IsRoot hash (a ∷ []) = inr (a, refl, leaf a)
compute_root-IsRoot hash (a ∷ b ∷ rest) =
    inr (root_loop-IsRoot hash (length (a ∷ b ∷ rest)) a (b ∷ rest) (omega arith))
