-- ===== src/Storage/Header.antt =====
-- serialize/storage/block_header.go: a header as the database keeps it, with its height.
use blockchain.Common.{ℕ, ◌^◌, ◌<◌, ◌≡◌, ◌↔◌, Bytes, ◌++◌, append-nil, ok}
use blockchain.Wire.{IsBytes, Reader, ◌>>=◌, ret, put_uint, read_uint}
use blockchain.Wire.Reads.{Reads, Reads-bind, Reads-last, Reads-uint}
use blockchain.Wire.Parses.{Parses, Emits, accepts_exactly, Parses-bind, Parses-ret, Parses-uint}
use blockchain.Cp.Header
use blockchain.Cp.Header.{BlockHeader}

pub record StoredHeader : Type 0 where
  pub header : BlockHeader
  pub height : ℕ

unfoldable pub unmarshal : Reader StoredHeader
unmarshal = do
  header ← Header.unmarshal
  height ← read_uint 8
  ret (record { header = header; height = height })

unfoldable pub marshal : StoredHeader → Bytes
marshal b = Header.marshal b.header ++ (put_uint 8 b.height)

pub record Fits (b : StoredHeader) : Type 0 where
  pub header_fits : Header.Fits b.header
  pub height_lt : b.height < 256 ^ 8

pub Reads-stored_header : (b : StoredHeader) → Fits b → Reads unmarshal (marshal b) b
unfolding unmarshal marshal
Reads-stored_header b f =
    Reads-bind _ (Header.Reads-header b.header f.header_fits)
      (Reads-last _ (Reads-uint 8 b.height f.height_lt))

pub Parses-stored_header : Parses unmarshal (Emits marshal Fits)
unfolding unmarshal marshal
Parses-stored_header = Parses-bind _ _ (Header.Parses-header) λ header header_fits.
    Parses-bind _ _ (Parses-uint 8) λ height height_lt.
      Parses-ret (rw append-nil, record { header_fits = header_fits; height_lt = height_lt })

-- On any bytes, reading gives this header and leaves `rest` exactly when the bytes are
-- those marshalled for it, with `rest` behind them, and its fields are within their widths.
unmarshal_stored_header_iff :
    (src rest : Bytes) (b : StoredHeader)
    → IsBytes src
    → (unmarshal src ≡ ok (b, rest)) ↔ ((src ≡ marshal b ++ rest) × Fits b)
unmarshal_stored_header_iff = accepts_exactly Reads-stored_header Parses-stored_header
