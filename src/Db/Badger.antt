-- ===== src/Db/Badger.antt =====
-- What db/badger.go calls of badger: a transaction over keys and values, and its commit.
use blockchain.Common.{ℕ, ◌≡◌, Bytes, List, Result, ok, err, equal, if◌then◌else◌}

-- `badger.ErrKeyNotFound`, and every other error.
pub data BadgerError : Type 0 where
  key_not_found failed : BadgerError

-- `Txn` is what a transaction sees: the database with its own writes.
pub record Badger : Type 1 where
  pub Txn : Type 0
  pub get : Bytes → Txn → Result BadgerError Bytes
  pub set : Bytes → Bytes → Txn → Result BadgerError Txn
  -- The keys with a prefix, with their values, in the order of the iterator.
  pub scan : Bytes → Txn → List (Bytes × Bytes)
  pub commit : Txn → Result BadgerError (Unit {0})

-- A transaction reads what it wrote last, and a write changes no other key.
pub record BadgerLaws (bd : Badger) : Type 0 where
  pub get_set :
      (k j v : Bytes) (t t' : bd.Txn)
      → bd.set k v t ≡ ok t'
      → bd.get j t' ≡ (if equal k j then ok v else bd.get j t)

-- The errors of db: ErrNotFound, ErrInternal and ErrInvalidHeight.
pub data DbError : Type 0 where
  not_found internal : DbError
  invalid_height : ℕ → ℕ → DbError

unfoldable pub wrap_error {ℓ} : {A : Type ℓ} → Result BadgerError A → Result DbError A
wrap_error (ok a) = ok a
wrap_error (err key_not_found) = err not_found
wrap_error (err failed) = err internal

module _ (bd : Badger) where
  -- `update`: the writes of a function that returned no error are committed, else they are dropped.
  unfoldable pub update :
      (bd.Txn → Result BadgerError bd.Txn) → bd.Txn → Result DbError (Unit {0}) × bd.Txn
  unfolding wrap_error
  update wf db = elim (wf db) [
    | err e ↦ (wrap_error (err e), db)
    | ok t ↦ elim (bd.commit t) [ err e ↦ (wrap_error (err e), db) | ok _ ↦ (ok tt, t) ]
  ]
