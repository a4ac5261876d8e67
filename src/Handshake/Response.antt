-- ===== src/Handshake/Response.antt =====
-- serialize/handshake/response.go.
use blockchain.Common.{
  ℕ, ◌^◌, ◌<◌, ◌≡◌, ◌↔◌, Bool, false, some, none, Bytes, [], ◌++◌, append-nil, ◌==◌, ok,
}
use blockchain.Wire.{
  IsBytes, Reader, ◌>>=◌, ret, put_uint, read_uint, put_slice8, read_slice8, put_slice16,
  read_slice16,
}
use blockchain.Wire.Reads.{Reads, Reads-bind, Reads-last, Reads-uint, Reads-slice8, Reads-slice16}
use blockchain.Wire.Parses.{
  Parses, Emits, accepts_exactly, Below, Parses-bind, Parses-ret, Parses-uint, Parses-slice8,
  Parses-slice16,
}
use blockchain.Cp.{Btcec}
use blockchain.Handshake.Request.{handshake_v1}

pub record Response : Type 0 where
  pub version : ℕ
  pub accept : ℕ
  pub code_version : ℕ
  pub node_type : ℕ
  pub session_key : Bytes
  pub sig : Bytes

unfoldable pub unmarshal : Reader Response
unmarshal = do
  version ← read_uint 1
  accept ← read_uint 1
  code_version ← read_uint 2
  node_type ← read_uint 1
  session_key ← read_slice8
  sig ← read_slice16
  ret (record {
    version = version;
    accept = accept;
    code_version = code_version;
    node_type = node_type;
    session_key = session_key;
    sig = sig;
  })

unfoldable pub marshal : Response → Bytes
marshal r =
    put_uint 1 r.version
    ++ (put_uint 1 r.accept
        ++ (put_uint 2 r.code_version
            ++ (put_uint 1 r.node_type ++ (put_slice8 r.session_key ++ (put_slice16 r.sig)))))

abbrev accept_flag : ℕ
accept_flag = 1

abbrev reject_flag : ℕ
reject_flag = 2

abbrev pub new_accept_response : ℕ → ℕ → Bytes → Response
new_accept_response code_version node_type session_key = record {
  version = handshake_v1;
  accept = accept_flag;
  code_version = code_version;
  node_type = node_type;
  session_key = session_key;
  sig = [];
}

abbrev pub new_reject_response : Response
new_reject_response = record {
  version = handshake_v1;
  accept = reject_flag;
  code_version = 0;
  node_type = 0;
  session_key = [];
  sig = [];
}

unfoldable pub is_accept : Response → Bool
is_accept r = r.accept == accept_flag

unfoldable pub sign_content : Response → Bytes
sign_content r =
    put_uint 1 r.version
    ++ (put_uint 1 r.accept
        ++ (put_uint 2 r.code_version ++ (put_uint 1 r.node_type ++ r.session_key)))

unfoldable pub verify : (Bytes → Bytes) → (ec : Btcec) → ec.PublicKey → Response → Bool
unfolding sign_content
verify hash ec key r = elim (ec.parse_signature r.sig) [
  | none ↦ false
  | some sig ↦ ec.verify sig (hash (sign_content r)) key
]

pub record Fits (r : Response) : Type 0 where
  pub version_lt : r.version < 256 ^ 1
  pub accept_lt : r.accept < 256 ^ 1
  pub code_version_lt : r.code_version < 256 ^ 2
  pub node_type_lt : r.node_type < 256 ^ 1
  pub session_key_fits : Below 256 r.session_key
  pub sig_fits : Below 65536 r.sig

pub Reads-handshake_response : (r : Response) → Fits r → Reads unmarshal (marshal r) r
unfolding unmarshal marshal
Reads-handshake_response r f = Reads-bind _ (Reads-uint 1 r.version f.version_lt) (
    Reads-bind _ (Reads-uint 1 r.accept f.accept_lt) (
      Reads-bind _ (Reads-uint 2 r.code_version f.code_version_lt) (
        Reads-bind _ (Reads-uint 1 r.node_type f.node_type_lt) (
          Reads-bind _ (Reads-slice8 r.session_key f.session_key_fits.1)
            (Reads-last _ (Reads-slice16 r.sig f.sig_fits.1))))))

pub Parses-handshake_response : Parses unmarshal (Emits marshal Fits)
unfolding unmarshal marshal
Parses-handshake_response = Parses-bind _ _ (Parses-uint 1) λ version version_lt.
    Parses-bind _ _ (Parses-uint 1) λ accept accept_lt.
      Parses-bind _ _ (Parses-uint 2) λ code_version code_version_lt.
        Parses-bind _ _ (Parses-uint 1) λ node_type node_type_lt.
          Parses-bind _ _ (Parses-slice8) λ session_key session_key_fits.
            Parses-bind _ _ (Parses-slice16) λ sig sig_fits. Parses-ret (
              rw append-nil,
              record {
                version_lt = version_lt;
                accept_lt = accept_lt;
                code_version_lt = code_version_lt;
                node_type_lt = node_type_lt;
                session_key_fits = session_key_fits;
                sig_fits = sig_fits;
              },
            )

-- On any bytes, reading gives this response and leaves `rest` exactly when the bytes are
-- those marshalled for it, with `rest` behind them, and its fields are within their widths.
pub unmarshal_handshake_response_iff :
    (src rest : Bytes) (r : Response)
    → IsBytes src
    → (unmarshal src ≡ ok (r, rest)) ↔ ((src ≡ marshal r ++ rest) × Fits r)
unmarshal_handshake_response_iff =
    accepts_exactly Reads-handshake_response Parses-handshake_response
