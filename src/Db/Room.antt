-- ===== src/Db/Room.antt =====
-- The room that the writes of db/badger.go take in a transaction, and that they return where it is there.
use blockchain.Common.{
  ℕ, ◌+◌, ◌≤◌, ◌<◌, ◌%◌, ◌^◌, ◌≡◌, ◌≢◌, refl, arith, Bytes, List, [], ◌∷◌, ◌++◌, All, length,
  Result, ok, err, ◌>>=◌, Bool-cases, inl, inr, if◌then◌else◌,
}
use blockchain.Cp.Header
use blockchain.Cp.Header.{BlockHeader, is_empty_evidence_root}
use blockchain.Cp.Evidence
use blockchain.Cp.Evidence.{Evidence}
use blockchain.Cp.Block.{Block}
use blockchain.Storage.Header as StorageHeader
use blockchain.Storage.Block as StorageBlock
use blockchain.Db.Schema.{hbyte, byteh}
use blockchain.Db.Keys.{
  Key, IsKey, encode, latest_height, header, block, evidence, hash_at, header_height,
  evidence_height, score, account_evidence, length-encode, key_length, length-hbyte,
}
use blockchain.Db.Badger.{Badger, BadgerError, key_not_found, failed}
use blockchain.Db.Store.{
  stored_header, stored_block, origin, update_score_tx, update_account_evidence_tx,
  put_each_evidence, put_evidence_tx, put_block_tx,
}
use blockchain.Db.Writes.{Write}
use blockchain.Db.Held.{evidence_writes, evds_writes, header_writes}

-- A badger whose transactions take writes to keys of 1 to 65000 bytes while these fit the room that is
-- left, finds keys that are not empty or finds them missing, and commits.
pub record IsRoomy (bd : Badger) : Type 0 where
  pub room : bd.Txn → ℕ
  -- What a write takes beside its bytes.
  pub overhead : ℕ
  pub sets :
      (k v : Bytes) (t : bd.Txn)
      → 0 < length k
      → length k ≤ 65_000
      → length k + length v + overhead ≤ room t
      → (t' : bd.Txn) × (bd.set k v t ≡ ok t')
        × (room t ≤ room t' + (length k + length v + overhead))
  pub gets : (k : Bytes) (t : bd.Txn) → 0 < length k → bd.get k t ≢ err failed
  pub commits : (t : bd.Txn) → bd.commit t ≡ ok tt

-- The room that writes take.
abbrev pub size : ℕ → List Write → ℕ
size overhead [] = 0
size overhead ((a, v) ∷ ws) = length (encode a) + length v + overhead + size overhead ws

-- The room that `PutBlock` of a block takes; a score is 8 bytes whatever it is.
abbrev pub needed : (Bytes → Bytes) → ℕ → Block → ℕ → ℕ
needed hash overhead b height =
    let k = Header.get_serialized_hash hash b.header in
    size overhead (evds_writes k b height)
    + size overhead (header_writes k b height 0)
    + size overhead ((latest_height, hbyte height) ∷ [])

size-append :
    (overhead : ℕ) (ws vs : List Write)
    → size overhead (ws ++ vs) ≡ size overhead ws + size overhead vs
size-append overhead [] vs = omega arith
size-append overhead ((a, v) ∷ ws) vs = omega (arith, size-append overhead ws vs)

key_length_bounds : (a : Key) → (0 < key_length a) × (key_length a ≤ 65_000)
key_length_bounds (header height k) = omega arith
key_length_bounds (block height k) = omega arith
key_length_bounds (evidence height k) = omega arith
key_length_bounds (hash_at height) = omega arith
key_length_bounds (header_height k) = omega arith
key_length_bounds (evidence_height k) = omega arith
key_length_bounds (score k) = omega arith
key_length_bounds (account_evidence k j) = omega arith
key_length_bounds latest_height = omega arith
key_length_bounds Key.genesis = omega arith

module _ (bd : Badger) (roomy : IsRoomy bd) where
  -- With so much room the call returns, and takes no more of it.
  abbrev pub Makes : ℕ → (bd.Txn → Result BadgerError bd.Txn) → Type 0
  Makes n f =
      (t : bd.Txn)
      → n ≤ roomy.room t
      → (t' : bd.Txn) × (f t ≡ ok t') × (roomy.room t ≤ roomy.room t' + n)

  abbrev pub cost : Bytes → Bytes → ℕ
  cost k v = length k + length v + roomy.overhead

  pub Makes-set : (a : Key) (v : Bytes) → IsKey a → Makes (cost (encode a) v) (bd.set (encode a) v)
  Makes-set a v ka t fits =
      let e = length-encode a ka in
      let b = key_length_bounds a in
      roomy.sets (encode a) v t (omega (arith, e, b)) (omega (arith, e, b)) fits

  pub Makes-bind :
      {m n : ℕ} (f g : bd.Txn → Result BadgerError bd.Txn)
      → Makes m f
      → Makes n g
      → Makes (m + n) (λ t. f t >>= g)
  Makes-bind f g mf mg t fits =
      let (u, e, left) = mf t (omega arith) in
      let (t', e', left') = mg u (omega (arith, fits, left)) in
      (t', rw e e', omega (arith, left, left'))

  origin-Returns : (r : Result BadgerError Bytes) → r ≢ err failed → (n : ℕ) × (origin r ≡ ok n)
  origin-Returns (ok v) ne = (byteh v, refl)
  origin-Returns (err key_not_found) ne = (0, refl)
  origin-Returns (err failed) ne = absurd (ne refl)

  Makes-update_score_tx :
      (k : Bytes) → length k ≡ 33 → Makes (cost (encode (score k)) (hbyte 0)) (update_score_tx bd k)
  unfolding update_score_tx encode
  Makes-update_score_tx k lk t fits =
      let l = length-encode (score k) lk in
      let there = roomy.gets (encode (score k)) t (omega (arith, l)) in
      let (n, e) = origin-Returns (bd.get (encode (score k)) t) there in
      let (t', r, left) =
        Makes-set (score k) (hbyte ((n + 1) % 2 ^ 64)) lk t
          (omega (arith, fits, length-hbyte 0, length-hbyte ((n + 1) % 2 ^ 64))) in
      (t', rw e r, omega (arith, left, length-hbyte 0, length-hbyte ((n + 1) % 2 ^ 64)))

  Makes-put_each_evidence :
      (es : List Evidence) (height : ℕ)
      → height < 2 ^ 64
      → All (λ e. (length e.hash ≡ 32) × (length e.pub_key ≡ 33)) es
      → Makes (size roomy.overhead (evidence_writes es height)) (put_each_evidence bd es height)
  unfolding put_each_evidence evidence_writes update_account_evidence_tx encode
  Makes-put_each_evidence [] height lt ks t fits = (t, refl, omega arith)
  Makes-put_each_evidence (e ∷ es) height lt ((lh, lp), ks) t fits =
      let first = Makes-set (evidence height e.hash) (Evidence.marshal e) (lt, lh) in
      let second = Makes-set (evidence_height e.hash) (hbyte height) lh in
      let third = Makes-set (account_evidence e.pub_key e.hash) (hbyte height) (lp, lh) in
      let rest = Makes-put_each_evidence es height lt ks in
      let (t', r, left) =
        Makes-bind _ _ (Makes-bind _ _ (Makes-bind _ _ first second) third) rest t
          (omega (arith, fits)) in
      (t', r, omega (arith, left))

  Makes-put_evds :
      (k : Bytes) (b : Block) (height : ℕ)
      → height < 2 ^ 64
      → length k ≡ 32
      → All (λ e. (length e.hash ≡ 32) × (length e.pub_key ≡ 33)) b.evds
      → Makes (size roomy.overhead (evds_writes k b height)) (λ t.
        if is_empty_evidence_root b.header then ok t else put_evidence_tx bd k b.evds height t)
  unfolding put_evidence_tx evds_writes encode
  Makes-put_evds k b height lt lk ks t fits = elim (Bool-cases (is_empty_evidence_root b.header)) [
    | inl empty ↦ rw empty (t, refl, omega arith)
    | inr full ↦
        let v = StorageBlock.marshal (stored_block b.evds) in
        let fits' = rw full at fits in
        let whole =
          size-append roomy.overhead (evidence_writes b.evds height) ((block height k, v) ∷ []) in
        let (t', r, left) =
          Makes-bind _ _ (Makes-put_each_evidence b.evds height lt ks)
            (Makes-set (block height k) v (lt, lk)) t (omega (arith, fits', whole)) in
        rw full (t', r, omega (arith, left, whole))
  ]

  pub Makes-put_block_tx :
      (hash : Bytes → Bytes) (b : Block) (height : ℕ)
      → height < 2 ^ 64
      → let k = Header.get_serialized_hash hash b.header in
        length k ≡ 32
        → length b.header.miner ≡ 33
        → All (λ e. (length e.hash ≡ 32) × (length e.pub_key ≡ 33)) b.evds
        → Makes
            (size roomy.overhead (evds_writes k b height)
              + size roomy.overhead (header_writes k b height 0))
            (put_block_tx bd hash b height)
  unfolding put_block_tx encode
  Makes-put_block_tx hash b height lt lk lm ks t fits =
      let k = Header.get_serialized_hash hash b.header in
      let evds = Makes-put_evds k b height lt lk ks in
      let first =
        Makes-set (header height k) (StorageHeader.marshal (stored_header b.header height))
          (lt, lk) in
      let second = Makes-set (hash_at height) k lt in
      let third = Makes-set (header_height k) (hbyte height) lk in
      let fourth = Makes-update_score_tx b.header.miner lm in
      let (t', r, left) =
        Makes-bind _ _ (Makes-bind _ _ (Makes-bind _ _ (Makes-bind _ _ evds first) second) third)
          fourth t (omega (arith, fits)) in
      (t', r, omega (arith, left))
