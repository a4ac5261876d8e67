-- ===== src/EvidencePool/Capacity.antt =====
-- The size of the pool after `insert` of core/ev_pool.go.
use blockchain.Common.{
  get_elem?_lt, ℕ, zero, suc, ◌+◌, ◌<◌, ◌≡◌, ◌≢◌, inl, inr, arith, Option, some, [], ◌∷◌, ◌++◌, All,
  length, length-append, get_elem?, Bool-cases, ltb,
}
use blockchain.Common.Int.{negsuc}
use blockchain.EvidencePool.{
  WeightedEvidence, Pool, choose_index, binary_search_insert_index, insert,
}
use blockchain.EvidencePool.Search.{IsAscending, Found, search_lem}
use blockchain.EvidencePool.Order.{get_elem?-some_lt}

abbrev pub Lighter : ℕ → Pool → Type 0
Lighter w = All λ x. x.weight < w

Lighter-at :
    (w : ℕ) (evds : Pool) (i : ℕ) {x : WeightedEvidence}
    → Lighter w evds
    → get_elem? evds i ≡ some x
    → x.weight < w
Lighter-at w [] i l e = cc
Lighter-at w (y ∷ ys) zero l e = ground arith
Lighter-at w (y ∷ ys) (suc i) l e = Lighter-at w ys i l.1 e

choose_end :
    (evds : Pool) (w b : ℕ) → b ≡ length evds → b ≢ 0 → choose_index evds w b ≡ some (negsuc 0)
unfolding choose_index
choose_end evds w b e ne = ground arith

-- The search over lighter evidence alone leaves with the end.
Found-end :
    (w : ℕ) (evds : Pool) {r : Option ℕ}
    → Lighter w evds
    → (f : Found evds w r) → f.index ≡ length evds
Found-end w evds l f = elim (Bool-cases (ltb f.index (length evds))) [
  | inl inside ↦
      let (x, ex) = get_elem?_lt evds f.index (ground arith) in
      absurd (omega (arith, f.heavy f.index x ex (omega arith), Lighter-at w evds f.index l ex))
  | inr outside ↦ let le = f.index_le in ground arith
]

all-Lighter-end :
    (x : WeightedEvidence) (xs : Pool) (w : ℕ)
    → IsAscending (x ∷ xs)
    → Lighter w (x ∷ xs)
    → binary_search_insert_index (x ∷ xs) w ≡ some (negsuc 0)
unfolding binary_search_insert_index
all-Lighter-end x xs w asc l =
    let evds : Pool = x ∷ xs in
    let f =
      search_lem evds w (length evds) 0 (length evds) asc (omega arith) (omega arith) (omega arith)
        (λ i y e lt. absurd (omega arith))
        (λ i y e le. absurd (omega (arith, get_elem?-some_lt evds i e))) in
    let e : f.index ≡ length evds = Found-end w evds l f in
    rw (f.found, binary_search_insert_index) (choose_end evds w f.index e (λ z. omega arith))

-- An evidence that is heavier than all of a pool that is not empty is appended with no cut, so the
-- pool grows by one however long it is: `evdsCacheSize` does not bound it.
pub insert_grows :
    (we x : WeightedEvidence) (xs : Pool)
    → IsAscending (x ∷ xs)
    → Lighter we.weight (x ∷ xs)
    → (insert we (x ∷ xs) ≡ some (x ∷ (xs ++ (we ∷ []))))
      × (length (x ∷ (xs ++ (we ∷ []))) ≡ length (x ∷ xs) + 1)
unfolding insert
insert_grows we x xs asc l =
    (rw (all-Lighter-end x xs we.weight asc l, insert), omega (arith, length-append xs (we ∷ [])))
