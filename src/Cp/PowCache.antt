-- ===== src/Cp/PowCache.antt =====
-- serialize/cp/pow_cache.go and the two `NextNonce`: mining overwrites the nonce in the bytes that
-- were marshalled once.
mod Overwrite
pub mod Mining
use blockchain.Common.{
  ℕ, zero, suc, ◌+◌, ◌%◌, ◌^◌, Bool, true, false, Option, some, none, Bytes, [], ◌∷◌, ◌++◌, length,
  drop, leb, if◌then◌else◌,
}
use blockchain.Wire.{put_uint, uint_from}
use blockchain.Cp.Header
use blockchain.Cp.Header.{BlockHeader}
use blockchain.Cp.Evidence
use blockchain.Cp.Evidence.{Evidence}

pub record PowCache : Type 0 where
  pub marshal_cache : Bytes
  pub pow_cache : ℕ
  pub cache : Bool

abbrev pub new_pow_cache : PowCache
new_pow_cache = record { marshal_cache = []; pow_cache = 0; cache = false }

unfoldable pub set_cache : PowCache → Bytes → ℕ → PowCache
set_cache p m pow = record { marshal_cache = m; pow_cache = pow; cache = true }

-- `copy(dst[index:], new)` where there is room for all of `new`.
unfoldable pub overwrite : ℕ → Bytes → Bytes → Bytes
overwrite zero new dst = new ++ drop (length new) dst
overwrite (suc i) new [] = []
overwrite (suc i) new (x ∷ dst) = x ∷ overwrite i new dst

-- `update`, which panics, `none`, where four bytes do not fit behind the index.
unfoldable pub update : (Bytes → Bytes) → PowCache → ℕ → ℕ → Option (ℕ × PowCache)
unfolding overwrite
update hash p nonce index =
    let m = overwrite index (put_uint 4 nonce) p.marshal_cache in
    let pow = uint_from 0 (hash m) in
    if leb (index + 4) (length p.marshal_cache)
    then some (pow, record p { marshal_cache = m; pow_cache = pow })
    else none

-- `nonce++` on a `uint32`.
abbrev pub next_uint32 : ℕ → ℕ
next_uint32 n = (n + 1) % 2 ^ 32

-- After the version and the time.
abbrev nonce_index : ℕ
nonce_index = 1 + 8

-- `NextNonce` of a header. The cache is `none` where the pointer `pc` is nil, as it is in a header
-- that was unmarshalled: the call panics, and so is `none`.
unfoldable pub header_next_nonce :
    (Bytes → Bytes) → BlockHeader → Option PowCache → Option (ℕ × BlockHeader × PowCache)
unfolding set_cache
header_next_nonce hash b none = none
header_next_nonce hash b (some pc) =
    let m = Header.marshal b in
    let pow = uint_from 0 (hash m) in
    let b' = record b { nonce = next_uint32 b.nonce } in
    if pc.cache
    then elim (update hash pc b'.nonce nonce_index) [
      | none ↦ none
      | some (pow', pc') ↦ some (pow', b', pc')
    ]
    else some (pow, b, set_cache pc m pow)

-- `NextNonce` of an evidence.
unfoldable pub evidence_next_nonce :
    (Bytes → Bytes) → Evidence → Option PowCache → Option (ℕ × Evidence × PowCache)
unfolding set_cache
evidence_next_nonce hash e none = none
evidence_next_nonce hash e (some pc) =
    let m = Evidence.marshal e in
    let pow = uint_from 0 (hash m) in
    let e' = record e { nonce = next_uint32 e.nonce } in
    if pc.cache
    then elim (update hash pc e'.nonce 1) [ none ↦ none | some (pow', pc') ↦ some (pow', e', pc') ]
    else some (pow, e, set_cache pc m pow)
