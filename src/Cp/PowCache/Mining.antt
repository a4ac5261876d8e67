-- ===== src/Cp/PowCache/Mining.antt =====
-- `NextNonce` of serialize/cp against `GetPow`.
use blockchain.Common.{ℕ, ◌+◌, ◌≤◌, ◌≡◌, arith, Bool, true, false, some, Bytes, length}
use blockchain.Wire.{put_uint, uint_from}
use blockchain.Cp.Header
use blockchain.Cp.Header.{BlockHeader}
use blockchain.Cp.Evidence
use blockchain.Cp.Evidence.{Evidence}
use blockchain.Cp.PowCache.{
  PowCache, overwrite, update, next_uint32, header_next_nonce, evidence_next_nonce,
}
use blockchain.Cp.PowCache.Overwrite.{
  overwrite-header, overwrite-evidence, room_in-header, room_in-evidence,
}

-- A cache that was filled holds the bytes of what it stands beside.
abbrev pub HoldsBytes : PowCache → Bytes → Type 0
HoldsBytes pc m = pc.cache ≡ true → pc.marshal_cache ≡ m

-- The nonce that `NextNonce` tries: the first call leaves it, every later one adds one, mod 2^32.
abbrev pub tried_nonce : Bool → ℕ → ℕ
tried_nonce false n = n
tried_nonce true n = next_uint32 n

update_lem :
    (hash : Bytes → Bytes) (p : PowCache) (nonce index : ℕ) (m : Bytes)
    → index + 4 ≤ length p.marshal_cache
    → overwrite index (put_uint 4 nonce) p.marshal_cache ≡ m
    → update hash p nonce index
      ≡ some
          (uint_from 0 (hash m), record p { marshal_cache = m; pow_cache = uint_from 0 (hash m) })
unfolding update
update_lem hash p nonce index m room e = ground arith

-- The cache after a call that returned the proof of work of these bytes.
abbrev pub filled : (Bytes → Bytes) → Bytes → PowCache
filled hash m = record { marshal_cache = m; pow_cache = uint_from 0 (hash m); cache = true }

abbrev pub with_header_nonce : BlockHeader → ℕ → BlockHeader
with_header_nonce b n = record b { nonce = n }

abbrev pub with_evidence_nonce : Evidence → ℕ → Evidence
with_evidence_nonce e n = record e { nonce = n }

module _ (hash : Bytes → Bytes) where
  -- Beside a cache that, if filled, holds its bytes, `NextNonce` of a header never panics. It
  -- changes the nonce of the header alone, to the nonce tried (mod 2^32), returns what `GetPow`
  -- computes from the changed header, and leaves the cache filled with the bytes of that.
  pub header_next_nonce_lem :
      (b : BlockHeader) (pc : PowCache)
      → HoldsBytes pc (Header.marshal b)
      → let b' = with_header_nonce b (tried_nonce pc.cache b.nonce) in
        header_next_nonce hash b (some pc)
        ≡ some (Header.get_pow hash b', b', filled hash (Header.marshal b'))
  unfolding header_next_nonce Header.get_pow
  header_next_nonce_lem b pc h =
      let n = next_uint32 b.nonce in
      ground (
        arith,
        update_lem hash pc n 9 (Header.marshal (with_header_nonce b n)),
        overwrite-header b n,
        room_in-header b,
      )

  -- The same for an evidence.
  evidence_next_nonce_lem :
      (e : Evidence) (pc : PowCache)
      → HoldsBytes pc (Evidence.marshal e)
      → let e' = with_evidence_nonce e (tried_nonce pc.cache e.nonce) in
        evidence_next_nonce hash e (some pc)
        ≡ some (Evidence.get_pow hash e', e', filled hash (Evidence.marshal e'))
  unfolding evidence_next_nonce Evidence.get_pow
  evidence_next_nonce_lem e pc h =
      let n = next_uint32 e.nonce in
      ground (
        arith,
        update_lem hash pc n 1 (Evidence.marshal (with_evidence_nonce e n)),
        overwrite-evidence e n,
        room_in-evidence e,
      )
