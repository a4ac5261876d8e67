-- ===== src/Merkle/Binding.antt =====
-- Lists of leaves with one root under `ComputeRoot` of core/merkle/merkle.go.
use blockchain.Common.{
  ℕ, ◌≡◌, ◌≢◌, refl, ap, ◌⊎◌, inl, inr, arith, some, Bytes, [], ◌∷◌, ◌++◌, All, length, equal,
  equal_iff, Bool-cases,
}
use blockchain.Merkle.{Leafs, compute_root}
use blockchain.Merkle.Level.{pair_up, length-pair_up, IsRoot, leaf, node, compute_root-IsRoot}

-- Two different inputs with one hash.
abbrev pub Collision : (Bytes → Bytes) → Type 0
Collision hash = (a : Bytes) × (b : Bytes) × (a ≢ b) × (hash a ≡ hash b)

-- Every slice is `n` bytes long.
abbrev pub AllOf : ℕ → Leafs → Type 0
AllOf n = All λ x. length x ≡ n

append_injective : (a b c d : Bytes) → length a ≡ length c → a ++ b ≡ c ++ d → (a ≡ c) × (b ≡ d)
append_injective [] b [] d e h = (refl, h)
append_injective [] b (y ∷ c) d e h = absurd (omega arith)
append_injective (x ∷ a) b [] d e h = absurd (omega arith)
append_injective (x ∷ a) b (y ∷ c) d e h =
    let (p, q) = append_injective a b c d (omega arith) (cc) in (cc, q)

module _ (hash : Bytes → Bytes) (n : ℕ) (hash_length : (x : Bytes) → length (hash x) ≡ n) where
  AllOf-pair_up : (xs : Leafs) → AllOf n xs → AllOf n (pair_up hash xs)
  AllOf-pair_up [] h = tt
  AllOf-pair_up (a ∷ []) h = h
  AllOf-pair_up (a ∷ b ∷ rest) h = (hash_length (a ++ b), AllOf-pair_up rest h.1.1)

  -- One level: the leaves under equal hashes are equal, or the hash collides.
  pair_up_binds :
      (xs ys : Leafs)
      → length xs ≡ length ys
      → AllOf n xs
      → AllOf n ys
      → pair_up hash xs ≡ pair_up hash ys
      → (xs ≡ ys) ⊎ Collision hash
  pair_up_binds [] [] l hx hy e = inl refl
  pair_up_binds [] (c ∷ ys) l hx hy e = absurd (omega arith)
  pair_up_binds (a ∷ xs) [] l hx hy e = absurd (omega arith)
  pair_up_binds (a ∷ []) (c ∷ []) l hx hy e = inl e
  pair_up_binds (a ∷ []) (c ∷ d ∷ s) l hx hy e = absurd (omega arith)
  pair_up_binds (a ∷ b ∷ r) (c ∷ []) l hx hy e = absurd (omega arith)
  pair_up_binds (a ∷ b ∷ r) (c ∷ d ∷ s) l hx hy e = elim (Bool-cases (equal (a ++ b) (c ++ d))) [
    | inl same ↦
        let (p, q) =
          append_injective a b c d (omega arith) ((equal_iff (a ++ b) (c ++ d)).0 same) in
        elim (pair_up_binds r s (omega arith) hx.1.1 hy.1.1 (cc)) [
          | inl t ↦ inl (cc)
          | inr k ↦ inr k
        ]
    | inr differ ↦ inr (a ++ b, c ++ d, (λ p. cc ((equal_iff (a ++ b) (c ++ d)).1 p)), cc)
  ]

  IsRoot-binds :
      {xs ys : Leafs} {r s : Bytes}
      → IsRoot hash xs r
      → IsRoot hash ys s
      → length xs ≡ length ys
      → AllOf n xs
      → AllOf n ys
      → r ≡ s
      → (xs ≡ ys) ⊎ Collision hash
  IsRoot-binds (leaf a) (leaf c) l hx hy e = inl (ap (λ t. t ∷ []) e)
  IsRoot-binds (leaf a) (node c d q s u) l hx hy e = absurd (omega arith)
  IsRoot-binds (node a b p r t) (leaf c) l hx hy e = absurd (omega arith)
  IsRoot-binds (node a b p r t) (node c d q s u) l hx hy e =
      elim (IsRoot-binds t u (omega (arith, length-pair_up hash p, length-pair_up hash q))
        (AllOf-pair_up (a ∷ b ∷ p) hx) (AllOf-pair_up (c ∷ d ∷ q) hy) e) [
          | inl same ↦ pair_up_binds (a ∷ b ∷ p) (c ∷ d ∷ q) l hx hy same
          | inr k ↦ inr k
        ]

  -- Two lists of as many leaves, each as long as a hash, for which `ComputeRoot` gives one root are
  -- the same list, or two different inputs of the hash with one result are at hand.
  pub compute_root_binds :
      (xs ys : Leafs) (root : Bytes)
      → length xs ≡ length ys
      → AllOf n xs
      → AllOf n ys
      → compute_root hash xs ≡ some root
      → compute_root hash ys ≡ some root
      → (xs ≡ ys) ⊎ Collision hash
  compute_root_binds xs ys root l hx hy p q = elim (compute_root-IsRoot hash xs) [
    | inl (_, e) ↦ cc
    | inr (r, e, t) ↦ elim (compute_root-IsRoot hash ys) [
      | inl (_, f) ↦ cc
      | inr (s, f, u) ↦ IsRoot-binds t u l hx hy (cc)
    ]
  ]
