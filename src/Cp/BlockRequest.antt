-- ===== src/Cp/BlockRequest.antt =====
-- serialize/cp/block_request.go.
use blockchain.Common.{
  ℕ, ◌^◌, ◌<◌, ◌≡◌, ◌↔◌, Bool, Bytes, ◌++◌, append-nil, length, ◌==◌, if◌then◌else◌, Result, ok,
  ◌>>◌, guard,
}
use blockchain.Wire.{IsBytes, Reader, ◌>>=◌, ret, put_uint, read_uint, put_slice8, read_slice8}
use blockchain.Wire.Reads.{Reads, Reads-bind, Reads-last, Reads-uint, Reads-slice8}
use blockchain.Wire.Parses.{
  Parses, Emits, accepts_exactly, Below, Parses-bind, Parses-ret, Parses-uint, Parses-slice8,
}
use blockchain.Cp.{
  core_protocol_v1, hash_length, VerifyError, invalid_version, invalid_type, invalid_base,
  invalid_end, msg_block_request,
}
use blockchain.Cp.Head
use blockchain.Cp.Head.{Head, new_head}

pub record BlockRequest : Type 0 where
  pub head : Head
  pub base : Bytes
  pub end : Bytes
  pub only_header : ℕ

unfoldable pub unmarshal : Reader BlockRequest
unmarshal = do
  head ← Head.unmarshal
  base ← read_slice8
  end ← read_slice8
  only_header ← read_uint 1
  ret (record { head = head; base = base; end = end; only_header = only_header })

unfoldable pub marshal : BlockRequest → Bytes
marshal b =
    Head.marshal b.head ++ (put_slice8 b.base ++ (put_slice8 b.end ++ (put_uint 1 b.only_header)))

abbrev only_header_flag : ℕ
only_header_flag = 1

abbrev not_only_header_flag : ℕ
not_only_header_flag = 0

abbrev pub new_block_request : Bytes → Bytes → Bool → BlockRequest
new_block_request base end only_header = record {
  head = new_head msg_block_request;
  base = base;
  end = end;
  only_header = if only_header then only_header_flag else not_only_header_flag;
}

unfoldable pub verify : BlockRequest → Result VerifyError (Unit {0})
verify b = do
  guard (b.head.version == core_protocol_v1) invalid_version
  guard (b.head.type == msg_block_request) invalid_type
  guard (length b.base == hash_length) invalid_base
  guard (length b.end == hash_length) invalid_end

unfoldable pub is_only_header : BlockRequest → Bool
is_only_header b = b.only_header == only_header_flag

pub record Fits (b : BlockRequest) : Type 0 where
  pub head_fits : Head.Fits b.head
  pub base_fits : Below 256 b.base
  pub end_fits : Below 256 b.end
  pub only_header_lt : b.only_header < 256 ^ 1

pub Reads-block_request : (b : BlockRequest) → Fits b → Reads unmarshal (marshal b) b
unfolding unmarshal marshal
Reads-block_request b f = Reads-bind _ (Head.Reads-head b.head f.head_fits) (
    Reads-bind _ (Reads-slice8 b.base f.base_fits.1) (
      Reads-bind _ (Reads-slice8 b.end f.end_fits.1)
        (Reads-last _ (Reads-uint 1 b.only_header f.only_header_lt))))

pub Parses-block_request : Parses unmarshal (Emits marshal Fits)
unfolding unmarshal marshal
Parses-block_request = Parses-bind _ _ (Head.Parses-head) λ head head_fits.
    Parses-bind _ _ (Parses-slice8) λ base base_fits.
      Parses-bind _ _ (Parses-slice8) λ end end_fits.
        Parses-bind _ _ (Parses-uint 1) λ only_header only_header_lt. Parses-ret (
          rw append-nil,
          record {
            head_fits = head_fits;
            base_fits = base_fits;
            end_fits = end_fits;
            only_header_lt = only_header_lt;
          },
        )

-- On any bytes, reading gives this request and leaves `rest` exactly when the bytes are
-- those marshalled for it, with `rest` behind them, and its fields are within their widths.
pub unmarshal_block_request_iff :
    (src rest : Bytes) (b : BlockRequest)
    → IsBytes src
    → (unmarshal src ≡ ok (b, rest)) ↔ ((src ≡ marshal b ++ rest) × Fits b)
unmarshal_block_request_iff = accepts_exactly Reads-block_request Parses-block_request
