-- ===== src/Discover/Tests.antt =====
-- Runs of the theorems on the discovery messages.
use blockchain.Common.{ℕ, ◌<◌, ◌≡◌, refl, arith, [], ◌∷◌, ◌++◌, ok}
use blockchain.Common.Int.{ℤ, pos}
use blockchain.Wire.{IsBytes, put_uint, put_int64, put_slice8}
use blockchain.Wire.Checks.{are_bytes-IsBytes, are_bytes-Below, filled_with}
use blockchain.Discover.Head
use blockchain.Discover.Head.{Head, new_head}
use blockchain.Discover.Pong
use blockchain.Discover.Pong.{Pong, new_pong, unmarshal_pong_iff}

abbrev now : ℤ
now = pos 1_553_000_000

head_at-Fits : (t : ℕ) → t < 256 → Head.Fits (new_head t now)
head_at-Fits t lt = record {
  version_lt = omega arith;
  type_lt = omega arith;
  time_fits = omega arith;
  reserved_lt = omega arith;
}

abbrev a_pong : Pong
a_pong = new_pong now (filled_with 32 7) (filled_with 33 2)

a_pong-Fits : Pong.Fits a_pong
a_pong-Fits = record {
  head_fits = head_at-Fits 2 (omega arith);
  ping_hash_fits = are_bytes-Below 256 (filled_with 32 7) refl refl;
  pub_key_fits = are_bytes-Below 256 (filled_with 33 2) refl refl;
}

pong-IsBytes : IsBytes (Pong.marshal a_pong ++ (9 ∷ []))
unfolding Pong.marshal Head.marshal put_uint put_int64 put_slice8
pong-IsBytes = are_bytes-IsBytes (Pong.marshal a_pong ++ (9 ∷ [])) refl

unmarshal_pong_iff_example : Pong.unmarshal (Pong.marshal a_pong ++ (9 ∷ [])) ≡ ok (a_pong, 9 ∷ [])
unmarshal_pong_iff_example =
    (unmarshal_pong_iff (Pong.marshal a_pong ++ (9 ∷ [])) (9 ∷ []) a_pong pong-IsBytes).1
      (refl, a_pong-Fits)
