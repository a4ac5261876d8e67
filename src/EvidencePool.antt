-- ===== src/EvidencePool.antt =====
-- core/ev_pool.go: the evidence that waits to be put in a block, lightest proof of work first.
mod Search
pub mod Order
pub mod Capacity
pub mod Intake
mod Tests
use blockchain.Common.{
  ℕ, zero, suc, ◌+◌, ◌/◌, Bool, true, false, Option, some, none, List, [], ◌∷◌, ◌++◌, length, take,
  drop, get_elem?, ltb, leb, ◌==◌, if◌then◌else◌, Bytes,
}
use blockchain.Common.Int.{ℤ, pos, negsuc}
use blockchain.Cp.Evidence
use blockchain.Cp.Evidence.{Evidence}

abbrev pub evds_cache_size : ℕ
evds_cache_size = 1024

pub record WeightedEvidence : Type 0 where
  pub evidence : Evidence
  pub weight : ℕ

-- The field `evds` of the pool.
abbrev pub Pool : Type 0
Pool = List WeightedEvidence

-- The loop of `binarySearchInsertIndex`, which leaves with `begin == end`. `none` is an index out of
-- range or too little fuel; neither happens from `0` and `length evds` with that much fuel.
unfoldable pub search : ℕ → Pool → ℕ → ℕ → ℕ → Option ℕ
search zero evds target begin end = none
search (suc fuel) evds target begin end =
    let mid = (begin + end) / 2 in
    elim (get_elem? evds mid) [
      | none ↦ none
      | some x ↦
          let begin' = if leb target x.weight then begin else mid + 1 in
          let end' = if leb target x.weight then mid else end in
          let rest = search fuel evds target begin' end' in
          if begin' == end' then some begin' else rest
    ]

-- What follows the loop, where it left with `begin`.
unfoldable pub choose_index : Pool → ℕ → ℕ → Option ℤ
choose_index evds target begin =
    if begin == 0
    then some (pos 0)
    else if begin == length evds
    then some (negsuc 0)
    else elim (get_elem? evds begin) [
      | none ↦ none
      | some x ↦ some (pos (if ltb target x.weight then begin else begin + 1))
    ]

-- `binarySearchInsertIndex`: -1 stands for the end.
unfoldable pub binary_search_insert_index : Pool → ℕ → Option ℤ
unfolding search choose_index
binary_search_insert_index [] target = some (pos 0)
binary_search_insert_index (x ∷ xs) target =
    elim (search (length (x ∷ xs)) (x ∷ xs) target 0 (length (x ∷ xs))) [
      | none ↦ none
      | some begin ↦ choose_index (x ∷ xs) target begin
    ]

-- Growing the slice by one, shifting what stands from `i` on, and writing at `i`.
abbrev pub insert_at : ℕ → WeightedEvidence → Pool → Pool
insert_at i we evds = take i evds ++ (we ∷ drop i evds)

-- The slice is cut where it is longer than the cache.
abbrev pub cut : Pool → Pool
cut evds = if ltb evds_cache_size (length evds) then take evds_cache_size evds else evds

-- `insert`: at -1 it appends and returns before the cut.
unfoldable pub insert : WeightedEvidence → Pool → Option Pool
unfolding binary_search_insert_index
insert we evds = elim (binary_search_insert_index evds we.weight) [
  | none ↦ none
  | some (negsuc _) ↦ some (evds ++ (we ∷ []))
  | some (pos i) ↦ some (cut (insert_at i we evds))
]

-- `nextEvidence`: the first evidence, and the pool without it.
unfoldable pub next_evidence : Pool → Option Evidence × Pool
next_evidence [] = (none, [])
next_evidence (x ∷ xs) = (some x.evidence, xs)

-- The loop of `addEvidence`, each with its proof of work as weight.
unfoldable pub add_evidence : (Bytes → Bytes) → List Evidence → Pool → Option Pool
unfolding insert
add_evidence hash [] evds = some evds
add_evidence hash (e ∷ es) evds =
    elim (insert (record { evidence = e; weight = Evidence.get_pow hash e }) evds) [
      | none ↦ none
      | some evds' ↦ add_evidence hash es evds'
    ]
