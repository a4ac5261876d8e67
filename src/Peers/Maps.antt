-- ===== src/Peers/Maps.antt =====
-- Maps in which no key stands twice.
use blockchain.Common.{
  ◌≡◌, refl, sym, ◌∙◌, arith, Option, some, none, Bytes, [], ◌∷◌, All, All-map, equal, equal_iff,
  Bool-cases, inl, inr,
}
use blockchain.Chain.Maps.{Map, load, store, delete, load-store, load-delete}

module _ {ℓ} {V : Type ℓ} where
  -- No key stands twice.
  abbrev pub IsMap : Map V → Type ℓ
  IsMap [] = Unit
  IsMap ((k, v) ∷ m) = (load k m ≡ none) × IsMap m

  pub store-IsMap : (k : Bytes) (v : V) (m : Map V) → IsMap m → IsMap (store k v m)
  unfolding store load
  store-IsMap k v [] d = (refl, d)
  store-IsMap k v ((j, w) ∷ m) (new, d) = elim (Bool-cases (equal j k)) [
    | inl same ↦ rw same (let e : j ≡ k = (equal_iff j k).0 same in (rw e at new, d))
    | inr other ↦
        rw other
          (load-store k j v m ∙ ground (arith, equal_iff j k, equal_iff k j), store-IsMap k v m d)
  ]

  pub delete-IsMap : (k : Bytes) (m : Map V) → IsMap m → IsMap (delete k m)
  unfolding delete load
  delete-IsMap k [] d = d
  delete-IsMap k ((j, w) ∷ m) (new, d) = elim (Bool-cases (equal j k)) [
    | inl same ↦ rw same (delete-IsMap k m d)
    | inr other ↦
        rw other
          (load-delete k j m ∙ ground (arith, equal_iff j k, equal_iff k j), delete-IsMap k m d)
  ]

  module _ (P : Bytes → V → Type ℓ) where
    pub store-All :
        (k : Bytes) (v : V) (m : Map V)
        → P k v
        → All (λ (j, w). P j w) m
        → All (λ (j, w). P j w) (store k v m)
    unfolding store
    store-All k v [] p ps = (p, ps)
    store-All k v ((j, w) ∷ m) p (q, ps) = elim (Bool-cases (equal j k)) [
      | inl same ↦ rw same (p, ps)
      | inr other ↦ rw other (q, store-All k v m p ps)
    ]

    pub delete-All :
        (k : Bytes) (m : Map V) → All (λ (j, w). P j w) m → All (λ (j, w). P j w) (delete k m)
    unfolding delete
    delete-All k [] ps = ps
    delete-All k ((j, w) ∷ m) (q, ps) = elim (Bool-cases (equal j k)) [
      | inl same ↦ rw same (delete-All k m ps)
      | inr other ↦ rw other (q, delete-All k m ps)
    ]

    pub load-All :
        (k : Bytes) (v : V) (m : Map V) → load k m ≡ some v → All (λ (j, w). P j w) m → P k v
    unfolding load
    load-All k v [] e ps = cc
    load-All k v ((j, w) ∷ m) e (q, ps) = elim (Bool-cases (equal j k)) [
      | inl same ↦
          let e1 : j ≡ k = (equal_iff j k).0 same in
          let e2 : (let x : Option V = some w in x) ≡ some v = rw same at e in
          let e3 : w ≡ v = cc in rw (← e1, ← e3) q
      | inr other ↦ load-All k v m (rw other at e) ps
    ]

  -- Every entry is what its key loads.
  pub IsMap-load : (m : Map V) → IsMap m → All (λ (k, v). load k m ≡ some v) m
  unfolding load
  IsMap-load [] d = tt
  IsMap-load ((k, v) ∷ m) (new, d) = (
    rw ((equal_iff k k).1 refl),
    All-map _ _ m
        (λ (j, w) e. elim (Bool-cases (equal k j)) [
          | inl same ↦ absurd (
              let s : k ≡ j = (equal_iff k j).0 same in
              let no : none ≡ some w = (rw s at (sym new)) ∙ e in cc)
          | inr other ↦ rw other e
        ])
        (IsMap-load m d),
  )
