-- ===== src/Chain/Serving.antt =====
-- `GetSyncBlocks` and `GetSyncHash` of core/blockchain/chain.go, where they answer from the database.
use blockchain.Common.{
  ℕ, suc, ◌+◌, ◌-◌, ◌≤◌, ◌<◌, ◌%◌, ◌^◌, ◌≡◌, ◌⊎◌, inl, inr, refl, sym, ap, subst, ◌∙◌, arith, Bool,
  true, false, none, Bytes, List, [], ◌∷◌, ◌++◌, append_assoc, map, length, length-append, ltb, leb,
  ok,
}
use blockchain.Cp.{Btcec}
use blockchain.Cp.Header
use blockchain.Cp.Header.{BlockHeader}
use blockchain.Cp.Block.{Block, shallow_copy}
use blockchain.Chain.{sub64}
use blockchain.Chain.Branch.{get_block}
use blockchain.Chain.Growth.{Chain}
use blockchain.Chain.Sync.{ask_db, get_sync_blocks}
use blockchain.Chain.Queries.{
  sync_max_blocks, search_hash, get_sync_hash, db_range, search_blocks, serve_sync_blocks,
}
use blockchain.Db.Badger.{Badger}
use blockchain.Db.Queries.{get_header_via_hash, get_latest_header}
use blockchain.Db.Ledger.{Represents, IsLedger}
use blockchain.Db.Reading.{
  get_block-Represents, get_header-Represents, get_latest_header-Represents,
}

-- The blocks one after the other on top of a chain, whose newest block is the first.
abbrev pub grown : List Block → List Block → List Block
grown [] bs = bs
grown (x ∷ xs) bs = grown xs (x ∷ bs)

grown-append : (xs bs : List Block) → (newer : List Block) × (grown xs bs ≡ newer ++ bs)
grown-append [] bs = ([], refl)
grown-append (x ∷ xs) bs =
    let (newer, e) = grown-append xs (x ∷ bs) in
    (newer ++ (x ∷ []), e ∙ sym (append_assoc newer (x ∷ []) bs))

length-grown : (xs bs : List Block) → length (grown xs bs) ≡ length xs + length bs
length-grown [] bs = omega arith
length-grown (x ∷ xs) bs = omega (arith, length-grown xs (x ∷ bs))

pub grown-snoc : (xs bs : List Block) (e : Block) → grown (xs ++ (e ∷ [])) bs ≡ e ∷ grown xs bs
grown-snoc [] bs e = refl
grown-snoc (x ∷ xs) bs e = grown-snoc xs (x ∷ bs) e

module _ (hash : Bytes → Bytes) (ec : Btcec) (bd : Badger) (t : bd.Txn) where
  -- The chain that the database represents, as some blocks on top of others.
  abbrev pub IsStored : List Block → Type 0
  IsStored bs = IsLedger hash ec bs × Represents hash bd t bs

  db_range-IsStored :
      (newer xs bs : List Block) (only_header : Bool)
      → IsStored (newer ++ grown xs bs)
      → db_range bd (length xs) (length bs + 1) only_header t
        ≡ ok (map (shallow_copy only_header) xs)
  unfolding db_range
  db_range-IsStored newer [] bs only_header st = refl
  db_range-IsStored newer (x ∷ xs) bs only_header st =
      let (more, e) = grown-append xs (x ∷ bs) in
      let whole : newer ++ grown xs (x ∷ bs) ≡ (newer ++ more) ++ (x ∷ bs) =
        ap (λ (z : List Block). newer ++ z) e ∙ sym (append_assoc newer more (x ∷ bs)) in
      let (led, rep) = subst IsStored whole st in
      let (found, back) = get_block-Represents hash ec bd (newer ++ more) x bs t led rep in
      let rest = db_range-IsStored newer xs (x ∷ bs) only_header st in
      let next : length (x ∷ bs) + 1 ≡ length bs + 1 + 1 = omega arith in
      let rest' : db_range bd (length xs) (length bs + 1 + 1) only_header t
          ≡ ok (map (shallow_copy only_header) xs) =
        ap (λ (i : ℕ). db_range bd (length xs) i only_header t) (sym next) ∙ rest in
      rw (found, rest', db_range)

  -- On a database that represents a chain of fewer than 2^64 blocks, which `Verify` accepts, which
  -- fit their widths and of which none has two evidences with one hash, `GetSyncBlocks` of two
  -- blocks of the chain, the base below the end, that are not both in the cache answers with the
  -- blocks above the base up to the end, the older first, without their evidence where only
  -- headers were asked for.
  pub serve_sync_blocks-IsStored :
      (newer : List Block) (e : Block) (between : List Block) (b : Block) (older : List Block)
      (only_header : Bool) (c : Chain)
      → IsStored (newer ++ (e ∷ grown between (b ∷ older)))
      → let base = Header.get_serialized_hash hash b.header in
        let end = Header.get_serialized_hash hash e.header in
        get_sync_blocks base end only_header c ≡ ask_db
        → serve_sync_blocks bd t base end only_header c
          ≡ ok (map (shallow_copy only_header) (between ++ (e ∷ [])))
  unfolding serve_sync_blocks search_blocks
  serve_sync_blocks-IsStored newer e between b older only_header c st cache =
      let xs = between ++ (e ∷ []) in
      let top : newer ++ (e ∷ grown between (b ∷ older)) ≡ newer ++ grown xs (b ∷ older) =
        ap (λ (z : List Block). newer ++ z) (sym (grown-snoc between (b ∷ older) e)) in
      let range = db_range-IsStored newer xs (b ∷ older) only_header (subst IsStored top st) in
      let (more, split) = grown-append between (b ∷ older) in
      let whole : newer ++ (e ∷ grown between (b ∷ older)) ≡ (newer ++ (e ∷ more)) ++ (b ∷ older) =
        ap (λ (z : List Block). newer ++ (e ∷ z)) split
        ∙ sym (append_assoc newer (e ∷ more) (b ∷ older)) in
      let base_there =
        (get_block-Represents hash ec bd (newer ++ (e ∷ more)) b older t (subst IsStored whole st).0
          (subst IsStored whole st).1).1 in
      let end_there =
        (get_block-Represents hash ec bd newer e (grown between (b ∷ older)) t st.0 st.1).1 in
      let len : length (grown between (b ∷ older)) ≡ length between + suc (length older) =
        length-grown between (b ∷ older) in
      let lower : ltb (length older + 1) (length (grown between (b ∷ older)) + 1) ≡ true =
        ground (arith, len) in
      let rounds : (length (grown between (b ∷ older)) + 1) - (length older + 1) ≡ length xs =
        omega (arith, len, length-append between (e ∷ [])) in
      let start : length older + 1 + 1 ≡ length (b ∷ older) + 1 = omega arith in
      rw (cache, base_there, end_there, lower, rounds, start, serve_sync_blocks, search_blocks)
        range

  module _ (e : Block) (between : List Block) (b : Block) (older : List Block) where
    abbrev below : List Block
    below = grown between (b ∷ older)

    length-below : length below ≡ length between + suc (length older)
    length-below = length-grown between (b ∷ older)

    search_base :
        (newer : List Block)
        → IsStored (newer ++ (e ∷ below))
        → get_header_via_hash bd (Header.get_serialized_hash hash b.header) t
          ≡ ok (b.header, length older + 1)
    search_base newer st =
        let (more, split) = grown-append between (b ∷ older) in
        let whole : newer ++ (e ∷ below) ≡ (newer ++ (e ∷ more)) ++ (b ∷ older) =
          ap (λ (z : List Block). newer ++ (e ∷ z)) split
          ∙ sym (append_assoc newer (e ∷ more) (b ∷ older)) in
        let (led, rep) = subst IsStored whole st in
        (get_header-Represents hash ec bd (newer ++ (e ∷ more)) b older t led rep).0

    -- The end is as far above the base as an answer goes.
    search_far :
        (newer : List Block) (latest : BlockHeader) (height : ℕ) (k : Bytes)
        → IsStored (newer ++ (e ∷ below))
        → length between + 1 ≡ sync_max_blocks
        → get_latest_header bd t ≡ ok (latest, height, k)
        → length below + 1 ≤ height
        → height < 2 ^ 64
        → search_hash bd t (Header.get_serialized_hash hash b.header)
          ≡ ok (Header.get_serialized_hash hash e.header, length between + 1)
    unfolding search_hash
    search_far newer latest height k (led, rep) d top high lt =
        let base_there = search_base newer (led, rep) in
        let end_there = (get_header-Represents hash ec bd newer e below t led rep).1 in
        let enough : leb sync_max_blocks (sub64 height (length older + 1)) ≡ true =
          ground (arith, length-below) in
        let at : (length older + 1 + sync_max_blocks) % 2 ^ 64 ≡ length below + 1 =
          omega (arith, length-below) in
        rw (base_there, top, enough, at, end_there, search_hash)
          (ap (λ (m : ℕ). ok (Header.get_serialized_hash hash e.header, m)) (sym d))

    search_near :
        IsStored (e ∷ below)
        → length between + 1 < sync_max_blocks
        → search_hash bd t (Header.get_serialized_hash hash b.header)
          ≡ ok (Header.get_serialized_hash hash e.header, length between + 1)
    unfolding search_hash
    search_near (led, rep) d =
        let base_there = search_base [] (led, rep) in
        let top = get_latest_header-Represents hash ec bd e below t led rep in
        let few = led.few in
        let near : leb sync_max_blocks (sub64 (length below + 1) (length older + 1)) ≡ false =
          ground (arith, length-below) in
        let diff : sub64 (length below + 1) (length older + 1) % 2 ^ 32 ≡ length between + 1 =
          omega (arith, length-below) in
        rw (base_there, top, near, diff, search_hash)

    searched :
        (newer : List Block)
        → IsStored (newer ++ (e ∷ below))
        → ((length between + 1 ≡ sync_max_blocks)
            ⊎ ((newer ≡ []) × (length between + 1 < sync_max_blocks)))
        → search_hash bd t (Header.get_serialized_hash hash b.header)
          ≡ ok (Header.get_serialized_hash hash e.header, length between + 1)
    searched [] st (inr (same, d)) = search_near st d
    searched [] (led, rep) (inl d) =
        search_far [] _ _ _ (led, rep) d (get_latest_header-Represents hash ec bd e below t led rep)
          (omega arith) (let few = led.few in omega arith)
    searched (x ∷ xs) st (inr (same, d)) = cc
    searched (x ∷ xs) (led, rep) (inl d) =
        search_far (x ∷ xs) _ _ _ (led, rep) d
          (get_latest_header-Represents hash ec bd x (xs ++ (e ∷ below)) t led rep)
          (omega (arith, length-append xs (e ∷ below))) (let few = led.few in omega arith)

  -- On a database that represents a chain of fewer than 2^64 blocks, which `Verify` accepts, which
  -- fit their widths and of which none has two evidences with one hash, `GetSyncHash` of a block
  -- of the chain that is not in the cache answers with the block 128 above it, or with the newest
  -- block where it is less than 128 above, and with how far that is above; `GetSyncBlocks` of
  -- these two then answers with exactly the blocks between them and the last one, the older first.
  pub get_sync_hash-serve_sync_blocks :
      (newer : List Block) (e : Block) (between : List Block) (b : Block) (older : List Block)
      (only_header : Bool) (c : Chain)
      → IsStored (newer ++ (e ∷ grown between (b ∷ older)))
      → ((length between + 1 ≡ sync_max_blocks)
          ⊎ ((newer ≡ []) × (length between + 1 < sync_max_blocks)))
      → let base = Header.get_serialized_hash hash b.header in
        let end = Header.get_serialized_hash hash e.header in
        get_block base (c.branch_at c.longest) ≡ none
        → (get_sync_hash bd t base c ≡ ok (end, length between + 1))
          × (serve_sync_blocks bd t base end only_header c
              ≡ ok (map (shallow_copy only_header) (between ++ (e ∷ []))))
  unfolding get_sync_hash get_sync_blocks search_hash
  get_sync_hash-serve_sync_blocks newer e between b older only_header c st far missing = (
    rw (missing, get_sync_hash) (searched e between b older newer st far),
    serve_sync_blocks-IsStored newer e between b older only_header c st
        (rw (missing, get_sync_blocks)),
  )
