-- ===== src/Cp/SyncRequest.antt =====
-- serialize/cp/sync_request.go.
use blockchain.Common.{◌≡◌, ◌↔◌, Bytes, ◌++◌, append-nil, length, ◌==◌, Result, ok, ◌>>◌, guard}
use blockchain.Wire.{IsBytes, Reader, ◌>>=◌, ret, put_slice8, read_slice8}
use blockchain.Wire.Reads.{Reads, Reads-bind, Reads-last, Reads-slice8}
use blockchain.Wire.Parses.{
  Parses, Emits, accepts_exactly, Below, Parses-bind, Parses-ret, Parses-slice8,
}
use blockchain.Cp.{
  core_protocol_v1, hash_length, VerifyError, invalid_version, invalid_type, invalid_base,
  msg_sync_req,
}
use blockchain.Cp.Head
use blockchain.Cp.Head.{Head, new_head}

pub record SyncRequest : Type 0 where
  pub head : Head
  pub base : Bytes

unfoldable pub unmarshal : Reader SyncRequest
unmarshal = do head ← Head.unmarshal; base ← read_slice8; ret (record { head = head; base = base })

unfoldable pub marshal : SyncRequest → Bytes
marshal s = Head.marshal s.head ++ (put_slice8 s.base)

abbrev pub new_sync_request : Bytes → SyncRequest
new_sync_request base = record { head = new_head msg_sync_req; base = base }

unfoldable pub verify : SyncRequest → Result VerifyError (Unit {0})
verify s = do
  guard (s.head.version == core_protocol_v1) invalid_version
  guard (s.head.type == msg_sync_req) invalid_type
  guard (length s.base == hash_length) invalid_base

pub record Fits (s : SyncRequest) : Type 0 where
  pub head_fits : Head.Fits s.head
  pub base_fits : Below 256 s.base

pub Reads-sync_request : (s : SyncRequest) → Fits s → Reads unmarshal (marshal s) s
unfolding unmarshal marshal
Reads-sync_request s f =
    Reads-bind _ (Head.Reads-head s.head f.head_fits)
      (Reads-last _ (Reads-slice8 s.base f.base_fits.1))

pub Parses-sync_request : Parses unmarshal (Emits marshal Fits)
unfolding unmarshal marshal
Parses-sync_request = Parses-bind _ _ (Head.Parses-head) λ head head_fits.
    Parses-bind _ _ (Parses-slice8) λ base base_fits.
      Parses-ret (rw append-nil, record { head_fits = head_fits; base_fits = base_fits })

-- On any bytes, reading gives this request and leaves `rest` exactly when the bytes are
-- those marshalled for it, with `rest` behind them, and its fields are within their widths.
pub unmarshal_sync_request_iff :
    (src rest : Bytes) (s : SyncRequest)
    → IsBytes src
    → (unmarshal src ≡ ok (s, rest)) ↔ ((src ≡ marshal s ++ rest) × Fits s)
unmarshal_sync_request_iff = accepts_exactly Reads-sync_request Parses-sync_request
