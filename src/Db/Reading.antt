-- ===== src/Db/Reading.antt =====
-- What the queries of db/badger.go answer on a database that represents a chain.
use blockchain.Common.{
  ◌+◌, ◌≤◌, ◌<◌, ◌^◌, ◌≡◌, sym, ap, ◌∙◌, arith, Bytes, List, [], ◌∷◌, ◌++◌, append-nil, All, length,
  ok,
}
use blockchain.Cp.{Btcec}
use blockchain.Cp.Header
use blockchain.Cp.Header.{BlockHeader}
use blockchain.Cp.Block.{Block}
use blockchain.Db.Badger.{Badger, wrap_error}
use blockchain.Db.Store.{
  get_latest_height, get_block_via_height, get_block_via_hash, get_hash, get_header_height,
}
use blockchain.Db.Queries.{get_latest_header, get_header_via_height, get_header_via_hash}
use blockchain.Db.Keys.{encode, byteh-hbyte}
use blockchain.Db.Schema.{hbyte, byteh}
use blockchain.Db.Refinement.{
  IsStorable, Holds, get_header-Holds, get_block_via_height-Holds, get_block_via_hash-Holds,
}
use blockchain.Db.Ledger.{AllHeld, Represents, IsLedger}
use blockchain.Db.Promise.{get_latest_height-Represents}

module _ (hash : Bytes → Bytes) (ec : Btcec) (bd : Badger) where
  older_held :
      (newer : List Block) (b : Block) (older : List Block) (t : bd.Txn)
      → AllHeld hash bd t (newer ++ (b ∷ older))
      → Holds hash bd t (length older + 1) b
  older_held [] b older t (h, hs) = h
  older_held (x ∷ newer) b older t (h, hs) = older_held newer b older t hs

  older_valid :
      (newer : List Block) (b : Block) (older : List Block)
      → All (IsStorable hash ec) (newer ++ (b ∷ older))
      → IsStorable hash ec b
  older_valid [] b older (s, ss) = s
  older_valid (x ∷ newer) b older (s, ss) = older_valid newer b older ss

  older_lower :
      (newer : List Block) (b : Block) (older : List Block)
      → length older + 1 ≤ length (newer ++ (b ∷ older))
  older_lower [] b older = omega arith
  older_lower (x ∷ newer) b older = let rest = older_lower newer b older in omega arith

  -- On a database that represents a chain of fewer than 2^64 blocks, which `Verify` accepts, which fit
  -- their widths and of which none has two evidences with one hash, `GetBlockViaHeight` answers every
  -- height of the chain with the block there and its hash, and `GetBlockViaHash` answers the hash of
  -- every block of the chain with that block and its height.
  pub get_block-Represents :
      (newer : List Block) (b : Block) (older : List Block) (t : bd.Txn)
      → IsLedger hash ec (newer ++ (b ∷ older))
      → Represents hash bd t (newer ++ (b ∷ older))
      → (get_block_via_height bd (length older + 1) t
          ≡ ok (b, Header.get_serialized_hash hash b.header))
        × (get_block_via_hash bd (Header.get_serialized_hash hash b.header) t
            ≡ ok (b, length older + 1))
  get_block-Represents newer b older t led r =
      let h = older_held newer b older t r.held in
      let st = older_valid newer b older led.storable in
      let lt : length older + 1 < 2 ^ 64 =
        let few = led.few in let low = older_lower newer b older in omega arith in
      (
        get_block_via_height-Holds hash bd ec t (length older + 1) b lt st h,
        get_block_via_hash-Holds hash bd ec t (length older + 1) b lt st h,
      )

  -- On a database that represents a chain that is not empty, `GetLatestHeader` answers the header of
  -- the newest block, with its height and its hash.
  pub get_latest_header-Represents :
      (b : Block) (bs : List Block) (t : bd.Txn)
      → IsLedger hash ec (b ∷ bs)
      → Represents hash bd t (b ∷ bs)
      → get_latest_header bd t
        ≡ ok (b.header, length bs + 1, Header.get_serialized_hash hash b.header)
  unfolding get_latest_header get_header_via_height get_hash wrap_error encode
  get_latest_header-Represents b bs t led r =
      let h = r.held.0 in
      let lt : length bs + 1 < 2 ^ 64 = let few = led.few in omega arith in
      let at : get_latest_height bd t ≡ ok (length bs + 1) =
        get_latest_height-Represents hash bd t (b ∷ bs) led.few r
        ∙ ap ok (let e : length (b ∷ bs) ≡ length bs + 1 = omega arith in e) in
      rw (at, h.hash_held, get_header-Holds hash bd ec t (length bs + 1) b lt led.storable.0 h)

  -- The same for the headers and the hashes of a chain.
  pub get_header-Represents :
      (newer : List Block) (b : Block) (older : List Block) (t : bd.Txn)
      → IsLedger hash ec (newer ++ (b ∷ older))
      → Represents hash bd t (newer ++ (b ∷ older))
      → (get_header_via_hash bd (Header.get_serialized_hash hash b.header) t
          ≡ ok (b.header, length older + 1))
        × (get_hash bd (length older + 1) t ≡ ok (Header.get_serialized_hash hash b.header))
  unfolding get_header_via_hash get_header_height get_hash wrap_error encode
  get_header-Represents newer b older t led r =
      let h = older_held newer b older t r.held in
      let height = length older + 1 in
      let lt : height < 2 ^ 64 =
        let few = led.few in let low = older_lower newer b older in omega arith in
      let e : byteh (hbyte height) ≡ height =
        ap byteh (sym (append-nil (hbyte height))) ∙ byteh-hbyte height [] lt in
      (
        rw (
          h.height_held,
          e,
          get_header-Holds hash bd ec t height b lt (older_valid newer b older led.storable) h,
        ),
        rw h.hash_held,
      )
