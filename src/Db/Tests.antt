-- ===== src/Db/Tests.antt =====
-- Runs of the theorems on db/badger.go, on a badger that is a list of keys and values.
use blockchain.Common.{
  ℕ, ◌%◌, ◌^◌, All, true, ◌+◌, List, ◌≡◌, ◌≢◌, refl, arith, Option, some, none, Bytes, [], ◌∷◌,
  length, Result, ok, err, equal, Bool-cases, inl, inr,
}
use blockchain.Wire.Checks.{filled_with}
use blockchain.Chain.Maps.{Map, load, store, load-store}
use blockchain.Cp.Header
use blockchain.Cp.Block.{Block}
use blockchain.Cp.Tests.{block, block-Fits}
use blockchain.Cp.Tests.Mining.{toy_hash, toy_ec}
use blockchain.Cp.Block
use blockchain.Cp.Evidence
use blockchain.Cp.Description.{verify_description, rune_count}
use blockchain.Cp.Validity.{IsValidBlock, verify_block_iff}
use blockchain.Wire.{put_uint, put_int64, put_slice8}
use blockchain.Db.Schema.{hbyte, latest_height_key}
use blockchain.Db.Keys.{encode, encode_injective, hash_at}
use blockchain.Db.Badger.{
  update, DbError, Badger, BadgerError, key_not_found, failed, BadgerLaws, invalid_height,
}
use blockchain.Db.Store.{
  put_block_tx, update_latest_height_tx, put_evidence_tx, put_each_evidence,
  update_account_evidence_tx, update_score_tx, put_block, put_genesis, get_block_via_height,
  get_block_via_hash,
}
use blockchain.Db.Refinement.{IsStorable}
use blockchain.Db.Ledger.{Represents, IsLedger, IsNewHash}
use blockchain.Db.Promise.{
  Appended, Begun, put_block-Appended, put_block_refuses, put_genesis-Begun,
}
use blockchain.Db.Reading.{get_block-Represents}
use blockchain.Db.Queries.{has_genesis, answer, get_latest_header, get_score_via_key}
use blockchain.Db.Answering.{IsFound, put_block-IsFound, put_genesis-has_genesis}
use blockchain.Db.Room.{IsRoomy, needed}
use blockchain.Db.Success.{put_block-Represents}

abbrev found : Option Bytes → Result BadgerError Bytes
found (some v) = ok v
found none = err key_not_found

found_not_failed : (o : Option Bytes) → found o ≢ err failed
found_not_failed (some v) e = cc
found_not_failed none e = cc

abbrev pub mem_db : Badger
mem_db = record {
  Txn = Map Bytes;
  get = λ k t. found (load k t);
  set = λ k v t. ok (store k v t);
  scan = λ prefix t. [];
  commit = λ t. ok tt;
}

pub mem_db-BadgerLaws : BadgerLaws mem_db
mem_db-BadgerLaws = record {
  get_set = λ k j v t t' e. elim (Bool-cases (equal k j)) [
    | inl same ↦ let e' : store k v t ≡ t' = cc in rw (← e', load-store k j v t, same)
    | inr other ↦ let e' : store k v t ≡ t' = cc in rw (← e', load-store k j v t, other)
  ];
}

-- Memory has any room.
abbrev mem_db-IsRoomy : ℕ → IsRoomy mem_db
mem_db-IsRoomy n = record {
  room = λ t. n;
  overhead = 0;
  sets = λ k v t there short fits. (store k v t, refl, omega arith);
  gets = λ k t there. found_not_failed (load k t);
  commits = λ t. refl;
}

length-toy_hash : (x : Bytes) → length (toy_hash x) ≡ 32
length-toy_hash x = refl

block-IsValidBlock : IsValidBlock toy_hash toy_ec block
unfolding Block.verify Header.verify Evidence.verify verify_description rune_count equal
block-IsValidBlock = (verify_block_iff toy_hash toy_ec block).0 refl

block-IsStorable : IsStorable toy_hash toy_ec block
block-IsStorable = record { fits = block-Fits; valid = block-IsValidBlock; distinct = (tt, tt) }

block-IsLedger : IsLedger toy_hash toy_ec (block ∷ [])
block-IsLedger = record { storable = (block-IsStorable, tt); few = omega arith }

-- The database before any block.
abbrev pub fresh_db : mem_db.Txn
fresh_db = (latest_height_key, filled_with 8 0) ∷ []

fresh_db-Represents : Represents toy_hash mem_db fresh_db []
unfolding encode hbyte put_uint load equal
fresh_db-Represents = record { latest = refl; held = tt }

encode_injective_example : hash_at 7 ≡ hash_at 7
encode_injective_example = encode_injective (hash_at 7) (hash_at 7) (omega arith) (omega arith) refl

put_block-Appended_example :
    Appended toy_hash mem_db block [] fresh_db (put_block mem_db toy_hash block 1 fresh_db)
put_block-Appended_example =
    put_block-Appended toy_hash length-toy_hash toy_ec mem_db mem_db-BadgerLaws block [] fresh_db
      block-IsLedger tt fresh_db-Represents

put_block_refuses_example :
    put_block mem_db toy_hash block 3 fresh_db ≡ (err (invalid_height 3 1), fresh_db)
put_block_refuses_example =
    put_block_refuses toy_hash length-toy_hash toy_ec mem_db mem_db-BadgerLaws block 3 [] fresh_db
      (omega arith) fresh_db-Represents (λ e. omega arith)

put_genesis-Begun_example : Begun toy_hash mem_db block [] (put_genesis mem_db toy_hash block [])
put_genesis-Begun_example =
    put_genesis-Begun toy_hash length-toy_hash toy_ec mem_db mem_db-BadgerLaws block []
      block-IsLedger

-- The database with one more block.
pub put :
    (hash : Bytes → Bytes) (hash_length : (x : Bytes) → length (hash x) ≡ 32) (b : Block)
    (bs : List Block) (t : mem_db.Txn)
    → IsLedger hash toy_ec (b ∷ bs)
    → IsNewHash hash b bs
    → Represents hash mem_db t bs
    → (t' : mem_db.Txn) × (put_block mem_db hash b (length bs + 1) t ≡ (ok tt, t'))
      × Represents hash mem_db t' (b ∷ bs)
put hash hash_length b bs t led new r =
    let (t', e, r', recorded) =
      put_block-Represents hash hash_length toy_ec mem_db mem_db-BadgerLaws
        (mem_db-IsRoomy (needed hash 0 b (length bs + 1))) b bs t led new r (omega arith) in
    (t', e, r')

grown :
    (t : mem_db.Txn) × (put_block mem_db toy_hash block 1 fresh_db ≡ (ok tt, t))
    × Represents toy_hash mem_db t (block ∷ [])
grown = put toy_hash length-toy_hash block [] fresh_db block-IsLedger tt fresh_db-Represents

get_block-Represents_example :
    (get_block_via_height mem_db 1 grown.0
      ≡ ok (block, Header.get_serialized_hash toy_hash block.header))
    × (get_block_via_hash mem_db (Header.get_serialized_hash toy_hash block.header) grown.0
        ≡ ok (block, 1))
get_block-Represents_example =
    get_block-Represents toy_hash toy_ec mem_db [] block [] grown.0 block-IsLedger grown.2

put_block-IsFound_example :
    All (IsFound mem_db grown.0 1) block.evds
    × ((n : ℕ) × (get_score_via_key mem_db block.header.miner fresh_db ≡ ok n)
        × (get_score_via_key mem_db block.header.miner grown.0 ≡ ok ((n + 1) % 2 ^ 64)))
put_block-IsFound_example =
    put_block-IsFound toy_hash length-toy_hash toy_ec mem_db mem_db-BadgerLaws block [] fresh_db
      grown.0 block-IsLedger tt fresh_db-Represents grown.1

abbrev begun : Result DbError (Unit {0}) × mem_db.Txn
begun = put_genesis mem_db toy_hash block []

begun-eq-ok : begun ≡ (ok tt, begun.1)
unfolding put_genesis update put_block_tx update_latest_height_tx put_evidence_tx put_each_evidence
    update_account_evidence_tx update_score_tx load store equal Header.get_serialized_hash
    Header.marshal put_int64 put_slice8
begun-eq-ok = refl

put_genesis-has_genesis_example :
    (has_genesis mem_db begun.1 ≡ answer true)
    × (get_latest_header mem_db begun.1
        ≡ ok (block.header, 1, Header.get_serialized_hash toy_hash block.header))
    × (get_block_via_height mem_db 1 begun.1
        ≡ ok (block, Header.get_serialized_hash toy_hash block.header))
    × All (IsFound mem_db begun.1 1) block.evds
put_genesis-has_genesis_example =
    put_genesis-has_genesis toy_hash length-toy_hash toy_ec mem_db mem_db-BadgerLaws block []
      begun.1 block-IsLedger begun-eq-ok
