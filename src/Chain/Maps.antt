-- ===== src/Chain/Maps.antt =====
-- `sync.Map` under keys that are the hex form of a hash, which stands for the hash itself.
use blockchain.Common.{
  ◌≡◌, refl, arith, Option, some, none, Bytes, List, [], ◌∷◌, equal, equal_iff, if◌then◌else◌,
}

abbrev pub Map {ℓ} : Type ℓ → Type ℓ
Map V = List (Bytes × V)

module _ {ℓ} {V : Type ℓ} where
  -- `Load`
  unfoldable pub load : Bytes → Map V → Option V
  load k [] = none
  load k ((j, v) ∷ m) = if equal j k then some v else load k m

  -- `Store` gives the key its new value, or adds it.
  unfoldable pub store : Bytes → V → Map V → Map V
  store k v [] = (k, v) ∷ []
  store k v ((j, w) ∷ m) = if equal j k then (k, v) ∷ m else (j, w) ∷ store k v m

  -- `Delete`
  unfoldable pub delete : Bytes → Map V → Map V
  delete k [] = []
  delete k ((j, v) ∷ m) = if equal j k then delete k m else (j, v) ∷ delete k m

  pub load-store :
      (k j : Bytes) (v : V) (m : Map V)
      → load j (store k v m) ≡ (if equal k j then some v else load j m)
  unfolding load store
  load-store k j v [] = refl
  load-store k j v ((i, w) ∷ m) =
      ground (arith, equal_iff k j, equal_iff i k, equal_iff i j, load-store k j v m)

  pub load-delete :
      (k j : Bytes) (m : Map V) → load j (delete k m) ≡ (if equal k j then none else load j m)
  unfolding load delete
  load-delete k j [] = ground arith
  load-delete k j ((i, w) ∷ m) =
      ground (arith, equal_iff k j, equal_iff i k, equal_iff i j, load-delete k j m)
