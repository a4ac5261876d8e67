-- ===== src/EvidencePool/Search.antt =====
-- The binary search finds the first evidence that is not lighter than the target.
use blockchain.Common.{
  get_elem?_lt, ℕ, zero, suc, ◌+◌, ◌/◌, ◌≤◌, ◌<◌, ◌≡◌, refl, subst, arith, Option, some, List, [],
  ◌∷◌, All, length, get_elem?, Bool-cases, inl, inr, leb, ◌==◌,
}
use blockchain.EvidencePool.{WeightedEvidence, Pool, search}

-- Weights never fall along the pool.
abbrev pub IsAscending : Pool → Type 0
IsAscending [] = Unit {0}
IsAscending (x ∷ xs) = All (λ y. x.weight ≤ y.weight) xs × IsAscending xs

All-get_elem? {ℓ κ} :
    {A : Type ℓ} (P : A → Type κ) (xs : List A) (i : ℕ) {x : A}
    → All P xs
    → get_elem? xs i ≡ some x
    → P x
All-get_elem? P [] i h e = cc
All-get_elem? P (y ∷ ys) zero h e = subst P (cc) h.0
All-get_elem? P (y ∷ ys) (suc i) h e = All-get_elem? P ys i h.1 e

pub ascending_at :
    (xs : Pool) (i j : ℕ) {x y : WeightedEvidence}
    → IsAscending xs
    → get_elem? xs i ≡ some x
    → get_elem? xs j ≡ some y
    → i ≤ j
    → x.weight ≤ y.weight
ascending_at [] i j h p q le = cc
ascending_at (z ∷ zs) zero zero h p q le = ground arith
ascending_at (z ∷ zs) zero (suc j) h p q le =
    ground (arith, All-get_elem? (λ y. z.weight ≤ y.weight) zs j h.0 q)
ascending_at (z ∷ zs) (suc i) zero h p q le = absurd (omega arith)
ascending_at (z ∷ zs) (suc i) (suc j) h p q le = ascending_at zs i j h.1 p q (omega arith)

module _ (evds : Pool) (target : ℕ) where
  -- What stands before `b` is lighter than the target.
  abbrev pub LighterBefore : ℕ → Type 0
  LighterBefore b =
      (i : ℕ) (x : WeightedEvidence) → get_elem? evds i ≡ some x → i < b → x.weight < target

  -- What stands from `e` on is not.
  abbrev pub HeavyFrom : ℕ → Type 0
  HeavyFrom e =
      (i : ℕ) (x : WeightedEvidence) → get_elem? evds i ≡ some x → e ≤ i → target ≤ x.weight

  pub record Found (r : Option ℕ) : Type 0 where
    pub index : ℕ
    pub found : r ≡ some index
    pub index_le : index ≤ length evds
    pub lighter : LighterBefore index
    pub heavy : HeavyFrom index

  Found-at : (b : ℕ) → b ≤ length evds → LighterBefore b → HeavyFrom b → Found (some b)
  Found-at b h l k = record { index = b; found = refl; index_le = h; lighter = l; heavy = k }

  -- Each round halves the range, keeps what is known outside it, and goes on until it is empty.
  pub search_lem :
      (fuel begin end : ℕ)
      → IsAscending evds
      → begin < end
      → end ≤ length evds
      → end ≤ begin + fuel
      → LighterBefore begin
      → HeavyFrom end
      → Found (search fuel evds target begin end)
  unfolding search
  search_lem zero begin end asc lt le fuel_ok l k = absurd (omega arith)
  search_lem (suc fuel) begin end asc lt le fuel_ok l k =
      let mid = (begin + end) / 2 in
      let (x, ex) = get_elem?_lt evds mid (omega arith) in
      rw (ex, search)
        (elim (Bool-cases (leb target x.weight)) [
          | inl heavy_mid ↦
              let k' : HeavyFrom mid =
                λ i y ey mi. ground (arith, ascending_at evds mid i asc ex ey mi) in
              rw heavy_mid (elim (Bool-cases (begin == mid)) [
                | inl stop ↦
                    rw stop (Found-at begin (omega arith) l (λ i y ey bi. k' i y ey (ground arith)))
                | inr more ↦
                    rw more (
                      search_lem fuel begin mid asc (ground arith) (omega arith) (omega arith) l k')
              ])
          | inr light_mid ↦
              let l' : LighterBefore (mid + 1) =
                λ i y ey im. ground (arith, ascending_at evds i mid asc ey ex (omega arith)) in
              rw light_mid (elim (Bool-cases (mid + 1 == end)) [
                | inl stop ↦
                    rw stop
                      (Found-at (mid + 1) (ground arith) l' (λ i y ey mi. k i y ey (ground arith)))
                | inr more ↦
                    rw more (search_lem fuel (mid + 1) end asc (ground arith) le (omega arith) l' k)
              ])
        ])
