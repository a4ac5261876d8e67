-- ===== src/Db/Writes.antt =====
-- The writes of db/badger.go as lists of keys and values, and what a transaction reads after them.
use blockchain.Common.{
  ◌≡◌, ◌≢◌, refl, sym, ap, ◌∙◌, Bytes, List, [], ◌∷◌, ◌++◌, All, Result, ok, err, ◌>>=◌, equal,
  equal_iff, Bool-cases, inl, inr,
}
use blockchain.Db.Keys.{Key, IsKey, encode, encode_injective}
use blockchain.Db.Badger.{Badger, BadgerLaws}

-- Both parts of a chain of calls returned.
pub both_returned {ℓ κ} :
    {E : Type 0} {A : Type ℓ} {B : Type κ} (first : Result E A) (then_do : A → Result E B) {b : B}
    → first >>= then_do ≡ ok b
    → (a : A) × (first ≡ ok a) × (then_do a ≡ ok b)
both_returned (err x) then_do e = cc
both_returned (ok a) then_do e = (a, refl, e)

abbrev pub Write : Type 0
Write = Key × Bytes

abbrev pub AllKeys : List Write → Type 0
AllKeys = All λ (a, v). IsKey a

-- No write is to this key.
abbrev pub Apart : Key → List Write → Type 0
Apart a = All λ (b, v). a ≢ b

module _ (bd : Badger) where
  -- The transaction after the writes, one by one.
  abbrev pub Wrote : List Write → bd.Txn → bd.Txn → Type 0
  Wrote [] t t' = t ≡ t'
  Wrote ((a, v) ∷ ws) t t' = (u : bd.Txn) × (bd.set (encode a) v t ≡ ok u) × Wrote ws u t'

  pub Wrote-append :
      (ws vs : List Write) (t u t' : bd.Txn) → Wrote ws t u → Wrote vs u t' → Wrote (ws ++ vs) t t'
  Wrote-append [] vs t u t' w w' = rw w w'
  Wrote-append ((a, v) ∷ ws) vs t u t' (m, e, w) w' = (m, e, Wrote-append ws vs m u t' w w')

  module _ (laws : BadgerLaws bd) where
    set_kept :
        (a b : Key) (v : Bytes) (t t' : bd.Txn)
        → IsKey a
        → IsKey b
        → a ≢ b
        → bd.set (encode b) v t ≡ ok t'
        → bd.get (encode a) t' ≡ bd.get (encode a) t
    set_kept a b v t t' ka kb ne e = elim (Bool-cases (equal (encode b) (encode a))) [
      | inl same ↦
          absurd (ne (encode_injective a b ka kb (sym ((equal_iff (encode b) (encode a)).0 same))))
      | inr other ↦ laws.get_set (encode b) (encode a) v t t' e ∙ rw other
    ]

    -- What is not written reads as before.
    pub Wrote-kept :
        (a : Key) (ws : List Write) (t t' : bd.Txn)
        → IsKey a
        → AllKeys ws
        → Apart a ws
        → Wrote ws t t'
        → bd.get (encode a) t' ≡ bd.get (encode a) t
    Wrote-kept a [] t t' ka ks ap w = rw w
    Wrote-kept a ((b, v) ∷ ws) t t' ka (kb, ks) (ne, ap) (u, e, w) =
        Wrote-kept a ws u t' ka ks ap w ∙ set_kept a b v t u ka kb ne e

    -- The last write to a key is what is read.
    pub Wrote-read :
        (a : Key) (v : Bytes) (ws : List Write) (t t' : bd.Txn)
        → IsKey a
        → AllKeys ws
        → Apart a ws
        → Wrote ((a, v) ∷ ws) t t'
        → bd.get (encode a) t' ≡ ok v
    Wrote-read a v ws t t' ka ks ap (u, e, w) =
        Wrote-kept a ws u t' ka ks ap w
        ∙ laws.get_set (encode a) (encode a) v t u e
        ∙ rw ((equal_iff (encode a) (encode a)).1 refl)
