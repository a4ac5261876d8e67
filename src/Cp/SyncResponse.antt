-- ===== src/Cp/SyncResponse.antt =====
-- serialize/cp/sync_response.go.
use blockchain.Common.{
  ℕ, ◌^◌, ◌<◌, ◌≡◌, ◌↔◌, Bool, Bytes, ◌++◌, append-nil, length, ◌==◌, if◌then◌else◌, Result, ok,
  ◌>>◌, guard,
}
use blockchain.Wire.{IsBytes, Reader, ◌>>=◌, ret, put_uint, read_uint, put_slice8, read_slice8}
use blockchain.Wire.Reads.{Reads, Reads-bind, Reads-last, Reads-uint, Reads-slice8}
use blockchain.Wire.Parses.{
  Parses, Emits, accepts_exactly, Below, Parses-bind, Parses-ret, Parses-uint, Parses-slice8,
}
use blockchain.Cp.{
  core_protocol_v1, hash_length, VerifyError, invalid_version, invalid_type, invalid_base,
  invalid_end, msg_sync_resp,
}
use blockchain.Cp.Head
use blockchain.Cp.Head.{Head, new_head}

pub record SyncResponse : Type 0 where
  pub head : Head
  pub base : Bytes
  pub end : Bytes
  pub height_diff : ℕ
  pub uptodate : ℕ

unfoldable pub unmarshal : Reader SyncResponse
unmarshal = do
  head ← Head.unmarshal
  base ← read_slice8
  end ← read_slice8
  height_diff ← read_uint 4
  uptodate ← read_uint 1
  ret (record {
    head = head;
    base = base;
    end = end;
    height_diff = height_diff;
    uptodate = uptodate;
  })

unfoldable pub marshal : SyncResponse → Bytes
marshal s =
    Head.marshal s.head
    ++ (put_slice8 s.base
        ++ (put_slice8 s.end ++ (put_uint 4 s.height_diff ++ (put_uint 1 s.uptodate))))

abbrev uptodate_flag : ℕ
uptodate_flag = 1

abbrev out_of_date_flag : ℕ
out_of_date_flag = 0

abbrev pub new_sync_response : Bytes → Bytes → ℕ → Bool → SyncResponse
new_sync_response base end height_diff uptodate = record {
  head = new_head msg_sync_resp;
  base = base;
  end = end;
  height_diff = height_diff;
  uptodate = if uptodate then uptodate_flag else out_of_date_flag;
}

unfoldable pub is_uptodate : SyncResponse → Bool
is_uptodate s = s.uptodate == uptodate_flag

unfoldable pub verify : SyncResponse → Result VerifyError (Unit {0})
verify s = do
  guard (s.head.version == core_protocol_v1) invalid_version
  guard (s.head.type == msg_sync_resp) invalid_type
  guard (length s.base == hash_length) invalid_base
  guard (length s.end == hash_length) invalid_end

pub record Fits (s : SyncResponse) : Type 0 where
  pub head_fits : Head.Fits s.head
  pub base_fits : Below 256 s.base
  pub end_fits : Below 256 s.end
  pub height_diff_lt : s.height_diff < 256 ^ 4
  pub uptodate_lt : s.uptodate < 256 ^ 1

pub Reads-sync_response : (s : SyncResponse) → Fits s → Reads unmarshal (marshal s) s
unfolding unmarshal marshal
Reads-sync_response s f = Reads-bind _ (Head.Reads-head s.head f.head_fits) (
    Reads-bind _ (Reads-slice8 s.base f.base_fits.1) (
      Reads-bind _ (Reads-slice8 s.end f.end_fits.1) (
        Reads-bind _ (Reads-uint 4 s.height_diff f.height_diff_lt)
          (Reads-last _ (Reads-uint 1 s.uptodate f.uptodate_lt)))))

pub Parses-sync_response : Parses unmarshal (Emits marshal Fits)
unfolding unmarshal marshal
Parses-sync_response = Parses-bind _ _ (Head.Parses-head) λ head head_fits.
    Parses-bind _ _ (Parses-slice8) λ base base_fits.
      Parses-bind _ _ (Parses-slice8) λ end end_fits.
        Parses-bind _ _ (Parses-uint 4) λ height_diff height_diff_lt.
          Parses-bind _ _ (Parses-uint 1) λ uptodate uptodate_lt. Parses-ret (
            rw append-nil,
            record {
              head_fits = head_fits;
              base_fits = base_fits;
              end_fits = end_fits;
              height_diff_lt = height_diff_lt;
              uptodate_lt = uptodate_lt;
            },
          )

-- On any bytes, reading gives this response and leaves `rest` exactly when the bytes are
-- those marshalled for it, with `rest` behind them, and its fields are within their widths.
pub unmarshal_sync_response_iff :
    (src rest : Bytes) (s : SyncResponse)
    → IsBytes src
    → (unmarshal src ≡ ok (s, rest)) ↔ ((src ≡ marshal s ++ rest) × Fits s)
unmarshal_sync_response_iff = accepts_exactly Reads-sync_response Parses-sync_response
