-- ===== src/Db/Queries.antt =====
-- db/badger.go: the queries beside those for whole blocks.
use blockchain.Common.{ℕ, Bool, true, false, Bytes, List, map, length, drop, Result, ok, err, ◌>>=◌}
use blockchain.Cp.Header.{BlockHeader}
use blockchain.Cp.Evidence.{Evidence}
use blockchain.Db.Schema.{
  byteh, get_evidence_height_key, get_score_key, get_account_evidence_key_prefix, genesis_key,
}
use blockchain.Db.Badger.{Badger, BadgerError, key_not_found, failed, DbError, internal}
use blockchain.Db.Store.{
  get_hash, get_header, get_header_height, get_evidence_height, get_evidence, get_latest_height,
}

-- The answer to a question after a key; `fatal` ends the program.
pub data Asked : Type 0 where
  answer : Bool → Asked
  fatal : Asked

-- The value of a score; a key that is not there is the score 0.
abbrev score_of : Result BadgerError Bytes → Result DbError ℕ
score_of (ok v) = ok (byteh v)
score_of (err key_not_found) = ok 0
score_of (err failed) = err internal

-- An error other than a missing key counts as present.
abbrev present : Result BadgerError Bytes → Bool
present (ok v) = true
present (err key_not_found) = false
present (err failed) = true

abbrev genesis_asked : Result BadgerError Bytes → Asked
genesis_asked (ok v) = answer true
genesis_asked (err key_not_found) = answer false
genesis_asked (err failed) = fatal

module _ (bd : Badger) where
  unfoldable pub has_genesis : bd.Txn → Asked
  has_genesis t = genesis_asked (bd.get genesis_key t)

  unfoldable pub has_evidence : Bytes → bd.Txn → Bool
  unfolding get_evidence_height_key
  has_evidence k t = present (bd.get (get_evidence_height_key k) t)

  unfoldable pub get_score_via_key : Bytes → bd.Txn → Result DbError ℕ
  unfolding get_score_key byteh
  get_score_via_key pub_key t = score_of (bd.get (get_score_key pub_key) t)

  -- The hashes behind the prefix, and the heights.
  unfoldable pub get_evidence_via_key : Bytes → bd.Txn → List Bytes × List ℕ
  unfolding get_account_evidence_key_prefix byteh
  get_evidence_via_key pub_key t =
      let prefix = get_account_evidence_key_prefix pub_key in
      let found = bd.scan prefix t in
      (map (λ (k, v). drop (length prefix) k) found, map (λ (k, v). byteh v) found)

  unfoldable pub get_evidence_via_hash : Bytes → bd.Txn → Result DbError (Evidence × ℕ)
  unfolding get_evidence_height get_evidence
  get_evidence_via_hash k t =
      get_evidence_height bd k t >>= λ height. get_evidence bd height k t >>= λ e. ok (e, height)

  unfoldable pub get_header_via_height : ℕ → bd.Txn → Result DbError (BlockHeader × Bytes)
  unfolding get_hash get_header
  get_header_via_height height t =
      get_hash bd height t >>= λ k. get_header bd height k t >>= λ h. ok (h.header, k)

  unfoldable pub get_header_via_hash : Bytes → bd.Txn → Result DbError (BlockHeader × ℕ)
  unfolding get_header_height get_header
  get_header_via_hash k t =
      get_header_height bd k t >>= λ height. get_header bd height k t >>= λ h. ok (h.header, height)

  unfoldable pub get_latest_header : bd.Txn → Result DbError (BlockHeader × ℕ × Bytes)
  unfolding get_latest_height get_header_via_height
  get_latest_header t = get_latest_height bd t >>= λ height.
      get_header_via_height height t >>= λ (h, k). ok (h, height, k)
