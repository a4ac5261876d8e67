-- ===== src/Handshake/Request.antt =====
-- serialize/handshake/request.go.
use blockchain.Common.{
  ℕ, ◌^◌, ◌<◌, ◌≡◌, ◌↔◌, Bool, false, some, none, Bytes, [], ◌++◌, append-nil, ok,
}
use blockchain.Wire.{
  IsBytes, Reader, ◌>>=◌, ret, put_uint, read_uint, put_slice8, read_slice8, put_slice16,
  read_slice16,
}
use blockchain.Wire.Reads.{Reads, Reads-bind, Reads-last, Reads-uint, Reads-slice8, Reads-slice16}
use blockchain.Wire.Parses.{
  Parses, Emits, accepts_exactly, Below, Parses-bind, Parses-ret, Parses-uint, Parses-slice8,
  Parses-slice16,
}
use blockchain.Cp.{Btcec}

pub record Request : Type 0 where
  pub version : ℕ
  pub chain_id : ℕ
  pub code_version : ℕ
  pub node_type : ℕ
  pub pub_key : Bytes
  pub session_key : Bytes
  pub sig : Bytes

unfoldable pub unmarshal : Reader Request
unmarshal = do
  version ← read_uint 1
  chain_id ← read_uint 1
  code_version ← read_uint 2
  node_type ← read_uint 1
  pub_key ← read_slice8
  session_key ← read_slice8
  sig ← read_slice16
  ret (record {
    version = version;
    chain_id = chain_id;
    code_version = code_version;
    node_type = node_type;
    pub_key = pub_key;
    session_key = session_key;
    sig = sig;
  })

unfoldable pub marshal : Request → Bytes
marshal r =
    put_uint 1 r.version
    ++ (put_uint 1 r.chain_id
        ++ (put_uint 2 r.code_version
            ++ (put_uint 1 r.node_type
                ++ (put_slice8 r.pub_key ++ (put_slice8 r.session_key ++ (put_slice16 r.sig))))))

abbrev pub handshake_v1 : ℕ
handshake_v1 = 1

-- NewRequestV1, with a nil signature.
abbrev pub new_request : ℕ → ℕ → ℕ → Bytes → Bytes → Request
new_request chain_id code_version node_type pub_key session_key = record {
  version = handshake_v1;
  chain_id = chain_id;
  code_version = code_version;
  node_type = node_type;
  pub_key = pub_key;
  session_key = session_key;
  sig = [];
}

-- What is signed: the fields with no length between the two keys.
unfoldable pub sign_content : Request → Bytes
sign_content r =
    put_uint 1 r.version
    ++ (put_uint 1 r.chain_id
        ++ (put_uint 2 r.code_version ++ (put_uint 1 r.node_type ++ (r.pub_key ++ r.session_key))))

-- `Verify`: both parse, and the signature is that of the public key in the request.
unfoldable pub verify : (Bytes → Bytes) → Btcec → Request → Bool
unfolding sign_content
verify hash ec r = elim (ec.parse_pub_key r.pub_key) [
  | none ↦ false
  | some key ↦ elim (ec.parse_signature r.sig) [
    | none ↦ false
    | some sig ↦ ec.verify sig (hash (sign_content r)) key
  ]
]

pub record Fits (r : Request) : Type 0 where
  pub version_lt : r.version < 256 ^ 1
  pub chain_id_lt : r.chain_id < 256 ^ 1
  pub code_version_lt : r.code_version < 256 ^ 2
  pub node_type_lt : r.node_type < 256 ^ 1
  pub pub_key_fits : Below 256 r.pub_key
  pub session_key_fits : Below 256 r.session_key
  pub sig_fits : Below 65536 r.sig

pub Reads-handshake_request : (r : Request) → Fits r → Reads unmarshal (marshal r) r
unfolding unmarshal marshal
Reads-handshake_request r f = Reads-bind _ (Reads-uint 1 r.version f.version_lt) (
    Reads-bind _ (Reads-uint 1 r.chain_id f.chain_id_lt) (
      Reads-bind _ (Reads-uint 2 r.code_version f.code_version_lt) (
        Reads-bind _ (Reads-uint 1 r.node_type f.node_type_lt) (
          Reads-bind _ (Reads-slice8 r.pub_key f.pub_key_fits.1) (
            Reads-bind _ (Reads-slice8 r.session_key f.session_key_fits.1)
              (Reads-last _ (Reads-slice16 r.sig f.sig_fits.1)))))))

pub Parses-handshake_request : Parses unmarshal (Emits marshal Fits)
unfolding unmarshal marshal
Parses-handshake_request = Parses-bind _ _ (Parses-uint 1) λ version version_lt.
    Parses-bind _ _ (Parses-uint 1) λ chain_id chain_id_lt.
      Parses-bind _ _ (Parses-uint 2) λ code_version code_version_lt.
        Parses-bind _ _ (Parses-uint 1) λ node_type node_type_lt.
          Parses-bind _ _ (Parses-slice8) λ pub_key pub_key_fits.
            Parses-bind _ _ (Parses-slice8) λ session_key session_key_fits.
              Parses-bind _ _ (Parses-slice16) λ sig sig_fits. Parses-ret (
                rw append-nil,
                record {
                  version_lt = version_lt;
                  chain_id_lt = chain_id_lt;
                  code_version_lt = code_version_lt;
                  node_type_lt = node_type_lt;
                  pub_key_fits = pub_key_fits;
                  session_key_fits = session_key_fits;
                  sig_fits = sig_fits;
                },
              )

-- On any bytes, reading gives this request and leaves `rest` exactly when the bytes are
-- those marshalled for it, with `rest` behind them, and its fields are within their widths.
pub unmarshal_handshake_request_iff :
    (src rest : Bytes) (r : Request)
    → IsBytes src
    → (unmarshal src ≡ ok (r, rest)) ↔ ((src ≡ marshal r ++ rest) × Fits r)
unmarshal_handshake_request_iff = accepts_exactly Reads-handshake_request Parses-handshake_request
