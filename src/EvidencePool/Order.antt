-- ===== src/EvidencePool/Order.antt =====
-- The place that `insert` of core/ev_pool.go finds, and the order of the pool.
use blockchain.Common.{
  get_elem?_lt, ℕ, zero, suc, ◌+◌, ◌≤◌, ◌<◌, ◌≡◌, refl, sym, ◌⊎◌, inl, inr, arith, Option, some,
  List, [], ◌∷◌, ◌++◌, append-nil, All, All-take, All-append, length, take, drop, get_elem?,
  take-append-drop, Bool-cases, ltb, ◌==◌,
}
use blockchain.Common.Int.{ℤ, pos, negsuc}
use blockchain.EvidencePool.{
  WeightedEvidence, Pool, evds_cache_size, choose_index, binary_search_insert_index, insert_at, cut,
  insert,
}
use blockchain.EvidencePool.Search.{IsAscending, ascending_at, LighterBefore, HeavyFrom, search_lem}
pub use blockchain.EvidencePool.Search.{IsAscending}

abbrev pub AtMost : ℕ → Pool → Type 0
AtMost w = All λ x. x.weight ≤ w

abbrev pub AtLeast : ℕ → Pool → Type 0
AtLeast w = All λ x. w ≤ x.weight

-- A fact about every element before an index, and about every one from it on.
All-take_of {ℓ} :
    {A : Type ℓ} (P : A → Type 0) (xs : List A) (n : ℕ)
    → ((i : ℕ) (x : A) → get_elem? xs i ≡ some x → i < n → P x)
    → All P (take n xs)
All-take_of P xs zero h = tt
All-take_of P [] (suc n) h = tt
All-take_of P (x ∷ xs) (suc n) h =
    (h 0 x refl (omega arith), All-take_of P xs n (λ i y e lt. h (suc i) y e (omega arith)))

All-drop_of {ℓ} :
    {A : Type ℓ} (P : A → Type 0) (xs : List A) (n : ℕ)
    → ((i : ℕ) (x : A) → get_elem? xs i ≡ some x → n ≤ i → P x)
    → All P (drop n xs)
All-drop_of P [] zero h = tt
All-drop_of P (x ∷ xs) zero h =
    (h 0 x refl (omega arith), All-drop_of P xs zero (λ i y e le. h (suc i) y e (omega arith)))
All-drop_of P [] (suc n) h = tt
All-drop_of P (x ∷ xs) (suc n) h = All-drop_of P xs n (λ i y e le. h (suc i) y e (omega arith))

pub get_elem?-some_lt {ℓ} :
    {A : Type ℓ} (xs : List A) (i : ℕ) {x : A} → get_elem? xs i ≡ some x → i < length xs
get_elem?-some_lt [] i e = cc
get_elem?-some_lt (y ∷ ys) zero e = omega arith
get_elem?-some_lt (y ∷ ys) (suc i) e = omega (arith, get_elem?-some_lt ys i e)

-- What `binarySearchInsertIndex` answers: -1 where all are lighter, or an index that splits the pool.
abbrev Chosen : Pool → ℕ → Option ℤ → Type 0
Chosen evds w r =
    ((r ≡ some (negsuc 0)) × AtMost w evds)
    ⊎ ((i : ℕ) × (r ≡ some (pos i)) × AtMost w (take i evds) × AtLeast w (drop i evds))

module _ (evds : Pool) (w : ℕ) (asc : IsAscending evds) where
  split_at :
      (i : ℕ)
      → ((j : ℕ) (x : WeightedEvidence) → get_elem? evds j ≡ some x → j < i → x.weight ≤ w)
      → HeavyFrom evds w i
      → AtMost w (take i evds) × AtLeast w (drop i evds)
  split_at i l h =
      (All-take_of (λ x. x.weight ≤ w) evds i l, All-drop_of (λ x. w ≤ x.weight) evds i h)

  before_all : LighterBefore evds w (length evds) → AtMost w evds
  before_all l =
      All-drop_of (λ x. x.weight ≤ w) evds 0
        (λ j x e le. omega (arith, l j x e (get_elem?-some_lt evds j e)))

  not_heavier :
      (b : ℕ) (x : WeightedEvidence)
      → get_elem? evds b ≡ some x
      → x.weight ≤ w
      → LighterBefore evds w b
      → (j : ℕ) (y : WeightedEvidence) → get_elem? evds j ≡ some y
      → j < b + 1
      → y.weight ≤ w
  not_heavier b x ex le l j y ey lt = omega (arith, ascending_at evds j b asc ey ex (omega arith))

  choose_index-Chosen :
      (b : ℕ)
      → b ≤ length evds
      → LighterBefore evds w b
      → HeavyFrom evds w b
      → Chosen evds w (choose_index evds w b)
  unfolding choose_index
  choose_index-Chosen b le l h = elim (Bool-cases (b == 0)) [
    | inl first ↦ rw first (
        inr (
          0,
          refl,
          tt,
          (split_at 0 (λ j x e lt. absurd (omega arith)) (λ j x e z. h j x e (ground arith))).1,
        ))
    | inr later ↦ rw later (elim (Bool-cases (b == length evds)) [
      | inl last ↦ rw last (inl (refl, before_all (λ j x e lt. l j x e (ground arith))))
      | inr inside ↦
          let (x, ex) = get_elem?_lt evds b (ground arith) in
          rw (inside, ex, choose_index)
            (elim (Bool-cases (ltb w x.weight)) [
              | inl heavier ↦
                  let parts = split_at b (λ j y e lt. omega (arith, l j y e lt)) h in
                  inr (b, rw heavier, parts.0, parts.1)
              | inr same ↦
                  let parts =
                    split_at (b + 1) (not_heavier b x ex (ground arith) l)
                      (λ j y e bj. h j y e (omega arith)) in
                  inr (b + 1, rw same, parts.0, parts.1)
            ])
    ])
  ]

binary_search_insert_index-Chosen :
    (evds : Pool) (w : ℕ) → IsAscending evds → Chosen evds w (binary_search_insert_index evds w)
unfolding binary_search_insert_index
binary_search_insert_index-Chosen [] w asc = inr (0, refl, tt, tt)
binary_search_insert_index-Chosen (x ∷ xs) w asc =
    let evds : Pool = x ∷ xs in
    let f =
      search_lem evds w (length evds) 0 (length evds) asc (omega arith) (omega arith) (omega arith)
        (λ i y e lt. absurd (omega arith))
        (λ i y e le. absurd (omega (arith, get_elem?-some_lt evds i e))) in
    rw (f.found, binary_search_insert_index)
      (choose_index-Chosen evds w asc f.index f.index_le f.lighter f.heavy)

AtLeast-trans : (v w : ℕ) (xs : Pool) → v ≤ w → AtLeast w xs → AtLeast v xs
AtLeast-trans v w [] le h = tt
AtLeast-trans v w (x ∷ xs) le h = (omega arith, AtLeast-trans v w xs le h.1)

-- A pool in order, and what stands between the lighter and the heavier part.
IsAscending-insert_at :
    (i : ℕ) (we : WeightedEvidence) (evds : Pool)
    → IsAscending evds
    → AtMost we.weight (take i evds)
    → AtLeast we.weight (drop i evds)
    → IsAscending (insert_at i we evds)
IsAscending-insert_at zero we evds asc l h = (h, asc)
IsAscending-insert_at (suc i) we [] asc l h = (tt, tt)
IsAscending-insert_at (suc i) we (x ∷ xs) asc l h = (
  All-append (λ y. x.weight ≤ y.weight) (take i xs) (we ∷ drop i xs)
      (All-take (λ y. x.weight ≤ y.weight) i xs asc.0)
      (l.0, AtLeast-trans x.weight we.weight (drop i xs) l.0 h),
  IsAscending-insert_at i we xs asc.1 l.1 h,
)

IsAscending-append :
    (we : WeightedEvidence) (evds : Pool)
    → IsAscending evds
    → AtMost we.weight evds
    → IsAscending (evds ++ (we ∷ []))
IsAscending-append we [] asc l = (tt, tt)
IsAscending-append we (x ∷ xs) asc l = (
  All-append (λ y. x.weight ≤ y.weight) xs (we ∷ []) asc.0 (l.0, tt),
  IsAscending-append we xs asc.1 l.1,
)

IsAscending-take : (n : ℕ) (evds : Pool) → IsAscending evds → IsAscending (take n evds)
IsAscending-take zero evds asc = tt
IsAscending-take (suc n) [] asc = tt
IsAscending-take (suc n) (x ∷ xs) asc =
    (All-take (λ y. x.weight ≤ y.weight) n xs asc.0, IsAscending-take n xs asc.1)

IsAscending-cut : (evds : Pool) → IsAscending evds → IsAscending (cut evds)
IsAscending-cut evds asc = elim (Bool-cases (ltb evds_cache_size (length evds))) [
  | inl long ↦ rw long (IsAscending-take evds_cache_size evds asc)
  | inr short ↦ rw short asc
]

-- What `insert` leaves: no evidence of the pool but those that a cut takes off the heavy end is
-- lost, and the new one stands behind all that are lighter and before all that are heavier.
pub record Inserted (we : WeightedEvidence) (evds : Pool) : Type 0 where
  pub pool : Pool
  pub returns : insert we evds ≡ some pool
  pub ascending : IsAscending pool
  pub front : Pool
  pub back : Pool
  pub splits : evds ≡ front ++ back
  pub front_light : AtMost we.weight front
  pub back_heavy : AtLeast we.weight back
  pub pool_is : (pool ≡ cut (front ++ (we ∷ back))) ⊎ ((back ≡ []) × (pool ≡ front ++ (we ∷ back)))

-- On a pool in ascending order `insert` finds its place without a panic, and keeps the order. It
-- inserts the evidence between the evidence that is no heavier and that which is no lighter. The
-- result is cut to 1024 unless the evidence went to the end.
pub insert-Inserted : (we : WeightedEvidence) (evds : Pool) → IsAscending evds → Inserted we evds
unfolding insert
insert-Inserted we evds asc = elim (binary_search_insert_index-Chosen evds we.weight asc) [
  | inl (e, l) ↦ record {
    pool = evds ++ (we ∷ []);
    returns = rw (e, insert);
    ascending = IsAscending-append we evds asc l;
    front = evds;
    back = [];
    splits = sym (append-nil evds);
    front_light = l;
    back_heavy = tt;
    pool_is = inr (refl, refl);
  }
  | inr (i, e, l, h) ↦ record {
    pool = cut (insert_at i we evds);
    returns = rw (e, insert);
    ascending = IsAscending-cut (insert_at i we evds) (IsAscending-insert_at i we evds asc l h);
    front = take i evds;
    back = drop i evds;
    splits = sym (take-append-drop i evds);
    front_light = l;
    back_heavy = h;
    pool_is = inl refl;
  }
]
