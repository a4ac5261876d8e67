-- ===== src/Handshake/Tests.antt =====
-- Runs of the theorems on the handshake messages.
use blockchain.Common.{◌≡◌, refl, arith, [], ◌∷◌, ◌++◌, ok}
use blockchain.Wire.{IsBytes, put_uint, put_slice8, put_slice16}
use blockchain.Wire.Checks.{are_bytes-IsBytes, are_bytes-Below, filled_with}
use blockchain.Handshake.Request
use blockchain.Handshake.Request.{unmarshal_handshake_request_iff}
use blockchain.Handshake.Response
use blockchain.Handshake.Response.{unmarshal_handshake_response_iff}

abbrev request : Request.Request
request = record {
  version = 1;
  chain_id = 2;
  code_version = 300;
  node_type = 1;
  pub_key = filled_with 33 2;
  session_key = filled_with 33 3;
  sig = 48 ∷ 6 ∷ [];
}

request-Fits : Request.Fits request
request-Fits = record {
  version_lt = omega arith;
  chain_id_lt = omega arith;
  code_version_lt = omega arith;
  node_type_lt = omega arith;
  pub_key_fits = are_bytes-Below 256 (filled_with 33 2) refl refl;
  session_key_fits = are_bytes-Below 256 (filled_with 33 3) refl refl;
  sig_fits = are_bytes-Below 65536 (48 ∷ 6 ∷ []) refl refl;
}

handshake_request-IsBytes : IsBytes (Request.marshal request ++ (9 ∷ []))
unfolding Request.marshal put_uint put_slice8 put_slice16
handshake_request-IsBytes = are_bytes-IsBytes (Request.marshal request ++ (9 ∷ [])) refl

unmarshal_handshake_request_iff_example :
    Request.unmarshal (Request.marshal request ++ (9 ∷ [])) ≡ ok (request, 9 ∷ [])
unmarshal_handshake_request_iff_example =
    (unmarshal_handshake_request_iff (Request.marshal request ++ (9 ∷ [])) (9 ∷ []) request
        handshake_request-IsBytes).1
      (refl, request-Fits)

abbrev response : Response.Response
response = record {
  version = 1;
  accept = 1;
  code_version = 300;
  node_type = 1;
  session_key = filled_with 33 3;
  sig = 48 ∷ 6 ∷ [];
}

response-Fits : Response.Fits response
response-Fits = record {
  version_lt = omega arith;
  accept_lt = omega arith;
  code_version_lt = omega arith;
  node_type_lt = omega arith;
  session_key_fits = are_bytes-Below 256 (filled_with 33 3) refl refl;
  sig_fits = are_bytes-Below 65536 (48 ∷ 6 ∷ []) refl refl;
}

handshake_response-IsBytes : IsBytes (Response.marshal response ++ (9 ∷ []))
unfolding Response.marshal put_uint put_slice8 put_slice16
handshake_response-IsBytes = are_bytes-IsBytes (Response.marshal response ++ (9 ∷ [])) refl

unmarshal_handshake_response_iff_example :
    Response.unmarshal (Response.marshal response ++ (9 ∷ [])) ≡ ok (response, 9 ∷ [])
unmarshal_handshake_response_iff_example =
    (unmarshal_handshake_response_iff (Response.marshal response ++ (9 ∷ [])) (9 ∷ []) response
        handshake_response-IsBytes).1
      (refl, response-Fits)
