-- ===== src/EvidencePool/Tests.antt =====
-- Runs of the theorems on the evidence pool.
use blockchain.Common.{ℕ, ◌+◌, ◌≡◌, arith, [], map, ◌∷◌, ◌++◌, length, some}
use blockchain.Cp.Tests.{evidence}
use blockchain.EvidencePool.{WeightedEvidence, Pool, insert, add_evidence}
use blockchain.EvidencePool.Order.{IsAscending, Inserted, insert-Inserted}
use blockchain.EvidencePool.Capacity.{insert_grows}
use blockchain.EvidencePool.Intake.{weighed, TakenIn, add_evidence-TakenIn}

abbrev weighing : ℕ → WeightedEvidence
weighing w = record { evidence = evidence; weight = w }

abbrev pool : Pool
pool = weighing 3 ∷ weighing 7 ∷ weighing 7 ∷ weighing 9 ∷ []

pool-IsAscending : IsAscending pool
pool-IsAscending = (
  (omega arith, (omega arith, (omega arith, tt))),
  ((omega arith, (omega arith, tt)), ((omega arith, tt), (tt, tt))),
)

insert-Inserted_example : Inserted (weighing 7) pool
insert-Inserted_example = insert-Inserted (weighing 7) pool pool-IsAscending

add_evidence-TakenIn_example :
    (evds : Pool) × (add_evidence (λ bs. length bs ∷ []) (evidence ∷ evidence ∷ []) pool
      ≡ some evds)
    × IsAscending evds
    × TakenIn (map (weighed (λ bs. length bs ∷ [])) (evidence ∷ evidence ∷ [])) pool evds
add_evidence-TakenIn_example =
    add_evidence-TakenIn (λ bs. length bs ∷ []) (evidence ∷ evidence ∷ []) pool pool-IsAscending

insert_grows_example :
    (insert (weighing 12) pool ≡ some (pool ++ (weighing 12 ∷ [])))
    × (length (pool ++ (weighing 12 ∷ [])) ≡ length pool + 1)
insert_grows_example =
    insert_grows (weighing 12) (weighing 3) (weighing 7 ∷ weighing 7 ∷ weighing 9 ∷ [])
      pool-IsAscending (omega arith, (omega arith, (omega arith, (omega arith, tt))))
