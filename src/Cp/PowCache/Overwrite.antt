-- ===== src/Cp/PowCache/Overwrite.antt =====
-- Overwriting a field in the middle of some bytes.
use blockchain.Common.{
  ℕ, zero, suc, ◌+◌, ◌≤◌, ◌≡◌, ap, ◌∙◌, sym, arith, Bytes, [], ◌∷◌, ◌++◌, length, length-append,
  drop-append_self,
}
use blockchain.Common.Int.{ℤ, half64, to_word}
use blockchain.Wire.{put_uint, put_int64}
use blockchain.Wire.Numbers.{length-put_uint}
use blockchain.Cp.Header
use blockchain.Cp.Header.{BlockHeader}
use blockchain.Cp.Evidence
use blockchain.Cp.Evidence.{Evidence}
use blockchain.Cp.PowCache.{overwrite}

-- An index behind some bytes counts from their end.
overwrite_skip :
    (front dst new : Bytes) (k i : ℕ)
    → length front + k ≡ i
    → overwrite i new (front ++ dst) ≡ front ++ overwrite k new dst
unfolding overwrite
overwrite_skip [] dst new k i e = let e' : i ≡ k = omega arith in rw e'
overwrite_skip (x ∷ front) dst new k zero e = absurd (omega arith)
overwrite_skip (x ∷ front) dst new k (suc i) e =
    ap (◌∷◌ x) (overwrite_skip front dst new k i (omega arith))

-- The old field gives way to the new one of the same length.
overwrite_here :
    (new old behind : Bytes)
    → length new ≡ length old
    → overwrite 0 new (old ++ behind) ≡ new ++ behind
unfolding overwrite
overwrite_here new old behind e = rw e (ap (◌++◌ new) (drop-append_self old behind))

nonce_length : (n m : ℕ) → length (put_uint 4 n) ≡ length (put_uint 4 m)
nonce_length n m = length-put_uint 4 n ∙ sym (length-put_uint 4 m)

length-put_int64 : (z : ℤ) → length (put_int64 z) ≡ 8
unfolding put_int64
length-put_int64 z = length-put_uint 8 (to_word half64 z)

-- Writing a nonce into the bytes of a header gives the bytes of the header with that nonce.
pub overwrite-header :
    (b : BlockHeader) (n : ℕ)
    → overwrite 9 (put_uint 4 n) (Header.marshal b) ≡ Header.marshal (record b { nonce = n })
unfolding Header.marshal
overwrite-header b n =
    overwrite_skip (put_uint 1 b.version) _ _ 8 9 (omega (arith, length-put_uint 1 b.version))
    ∙ ap (◌++◌ (put_uint 1 b.version)) (
        overwrite_skip (put_int64 b.time) _ _ 0 8 (omega (arith, length-put_int64 b.time))
        ∙ ap (◌++◌ (put_int64 b.time)) (overwrite_here _ _ _ (nonce_length n b.nonce)))

pub overwrite-evidence :
    (e : Evidence) (n : ℕ)
    → overwrite 1 (put_uint 4 n) (Evidence.marshal e) ≡ Evidence.marshal (record e { nonce = n })
unfolding Evidence.marshal
overwrite-evidence e n =
    overwrite_skip (put_uint 1 e.version) _ _ 0 1 (omega (arith, length-put_uint 1 e.version))
    ∙ ap (◌++◌ (put_uint 1 e.version)) (overwrite_here _ _ _ (nonce_length n e.nonce))

-- There is room for the nonce.
pub room_in-header : (b : BlockHeader) → 13 ≤ length (Header.marshal b)
unfolding Header.marshal
room_in-header b =
    simp length-append (
      omega
        (arith, length-put_uint 1 b.version, length-put_int64 b.time, length-put_uint 4 b.nonce))

pub room_in-evidence : (e : Evidence) → 5 ≤ length (Evidence.marshal e)
unfolding Evidence.marshal
room_in-evidence e =
    simp length-append (omega (arith, length-put_uint 1 e.version, length-put_uint 4 e.nonce))
