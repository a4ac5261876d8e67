-- ===== src/EvidencePool/Intake.antt =====
-- What `addEvidence` of core/ev_pool.go does with all the evidence that it is given.
use mathlib.Core.List.{Perm, perm_middle}
use mathlib.Core.List.Perm
use blockchain.Common.{
  ◌+◌, ◌≤◌, ◌<◌, ◌≡◌, ◌⊎◌, refl, sym, ap, subst, arith, some, Bytes, List, [], ◌∷◌, ◌++◌, map,
  append-nil, append_assoc, length, length-append, length-take_of_le, take, drop, take-append-drop,
  ltb, Bool-cases, inl, inr,
}
use blockchain.Cp.Evidence
use blockchain.Cp.Evidence.{Evidence}
use blockchain.EvidencePool.{WeightedEvidence, Pool, evds_cache_size, cut, add_evidence}
use blockchain.EvidencePool.Order.{IsAscending, Inserted, insert-Inserted}

-- An evidence weighs its proof of work.
abbrev pub weighed : (Bytes → Bytes) → Evidence → WeightedEvidence
weighed hash e = record { evidence = e; weight = Evidence.get_pow hash e }

-- What is there after some evidence came in: all of it and the pool before, in some order, but for
-- what was lost, which is nothing unless there is more than the cache takes.
pub record TakenIn (coming evds pool : Pool) : Type 0 where
  pub lost : Pool
  pub order : Perm (pool ++ lost) (coming ++ evds)
  pub few_kept : (lost ≡ []) ⊎ (evds_cache_size < length evds + length coming)
  pub no_more : length pool ≤ length evds + length coming

cut-TakenIn :
    (evds : Pool)
    → (lost : Pool) × (cut evds ++ lost ≡ evds)
      × ((lost ≡ []) ⊎ (evds_cache_size < length evds))
      × (length (cut evds) ≤ length evds)
cut-TakenIn evds = elim (Bool-cases (ltb evds_cache_size (length evds))) [
  | inl long ↦
      let many : evds_cache_size < length evds = ground arith in
      let e = length-take_of_le evds_cache_size evds (omega arith) in
      let less : length (take evds_cache_size evds) ≤ length evds = omega (arith, e) in
      rw long (drop evds_cache_size evds, take-append-drop evds_cache_size evds, inr many, less)
  | inr short ↦ rw short ([], append-nil evds, inl refl, omega arith)
]

Inserted-TakenIn :
    (we : WeightedEvidence) (evds : Pool) (i : Inserted we evds) → TakenIn (we ∷ []) evds i.pool
Inserted-TakenIn we evds i =
    let all : Pool = i.front ++ (we ∷ i.back) in
    let size : length all ≡ length evds + 1 = omega (
      arith,
      length-append i.front (we ∷ i.back),
      length-append i.front i.back,
      ap length i.splits,
    ) in
    let same : Perm all (we ∷ evds) =
      subst (λ xs. Perm all (we ∷ xs)) (sym i.splits) (perm_middle i.front i.back) in
    elim i.pool_is [
      | inl e ↦
          let (lost, whole, few, less) = cut-TakenIn all in
          rw e (record {
            lost = lost;
            order = subst (λ xs. Perm xs (we ∷ evds)) (sym whole) same;
            few_kept = elim few [ inl nil ↦ inl nil | inr many ↦ inr (omega (arith, many, size)) ];
            no_more = omega (arith, less, size);
          })
      | inr (nil, e) ↦ rw e (record {
        lost = [];
        order = subst (λ xs. Perm xs (we ∷ evds)) (sym (append-nil all)) same;
        few_kept = inl refl;
        no_more = omega (arith, size);
      })
    ]

TakenIn-trans :
    (we : WeightedEvidence) (coming evds mid pool : Pool)
    → TakenIn (we ∷ []) evds mid
    → TakenIn coming mid pool
    → TakenIn (we ∷ coming) evds pool
TakenIn-trans we coming evds mid pool f s = record {
  lost = s.lost ++ f.lost;
  order =
      subst (λ xs. Perm xs (we ∷ (coming ++ evds))) (append_assoc pool s.lost f.lost)
        (Perm.trans (Perm.append_right f.lost s.order) (
          subst (λ xs. Perm xs (we ∷ (coming ++ evds))) (sym (append_assoc coming mid f.lost))
            (Perm.trans (Perm.append_left coming f.order) (perm_middle coming evds))));
  few_kept = elim s.few_kept [
    | inr many ↦ inr (omega (arith, many, f.no_more))
    | inl nil ↦ elim f.few_kept [
      | inr many ↦ inr (omega (arith, many))
      | inl nil' ↦ inl (rw (nil, nil') refl)
    ]
  ];
  no_more = omega (arith, f.no_more, s.no_more);
}

-- From a pool in ascending order `addEvidence` takes in every evidence with its proof of work as
-- weight, without a panic. The pool is in ascending order after it, and holds the evidence from before
-- and the new evidence, each as often as it was there or came; some of it is lost only where both
-- together are more than 1024.
pub add_evidence-TakenIn :
    (hash : Bytes → Bytes) (es : List Evidence) (evds : Pool)
    → IsAscending evds
    → (evds' : Pool) × (add_evidence hash es evds ≡ some evds')
      × IsAscending evds'
      × TakenIn (map (weighed hash) es) evds evds'
unfolding add_evidence
add_evidence-TakenIn hash [] evds asc = (
  evds,
  refl,
  asc,
  record {
    lost = [];
    order = subst (λ xs. Perm xs evds) (sym (append-nil evds)) (Perm.refl evds);
    few_kept = inl refl;
    no_more = omega arith;
  },
)
add_evidence-TakenIn hash (e ∷ es) evds asc =
    let we = weighed hash e in
    let i = insert-Inserted we evds asc in
    let (evds', r, asc', h) = add_evidence-TakenIn hash es i.pool i.ascending in
    (
      evds',
      rw (i.returns, add_evidence) r,
      asc',
      TakenIn-trans we (map (weighed hash) es) evds i.pool evds' (Inserted-TakenIn we evds i) h,
    )
