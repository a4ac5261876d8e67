-- ===== src/Discover/Head.antt =====
-- serialize/discover/head.go.
use blockchain.Common.{ℕ, ◌^◌, ◌<◌, Bytes, ◌++◌, append-nil}
use blockchain.Wire.{Reader, ◌>>=◌, ret, put_uint, read_uint, put_int64, read_int64}
use blockchain.Wire.Reads.{Reads, Reads-bind, Reads-last, Reads-uint, Reads-int64}
use blockchain.Wire.Parses.{Parses, Emits, Parses-bind, Parses-ret, Parses-uint, Parses-int64}
use blockchain.Common.Int.{ℤ, IsSigned, half64}
use blockchain.Discover.{discover_v1}

pub record Head : Type 0 where
  pub version : ℕ
  pub type : ℕ
  pub time : ℤ
  pub reserved : ℕ

unfoldable pub unmarshal : Reader Head
unmarshal = do
  version ← read_uint 1
  type ← read_uint 1
  time ← read_int64
  reserved ← read_uint 2
  ret (record { version = version; type = type; time = time; reserved = reserved })

unfoldable pub marshal : Head → Bytes
marshal h =
    put_uint 1 h.version ++ (put_uint 1 h.type ++ (put_int64 h.time ++ (put_uint 2 h.reserved)))

-- NewHeadV1, with the clock in seconds.
abbrev pub new_head : ℕ → ℤ → Head
new_head t now = record { version = discover_v1; type = t; time = now; reserved = 0 }

pub record Fits (h : Head) : Type 0 where
  pub version_lt : h.version < 256 ^ 1
  pub type_lt : h.type < 256 ^ 1
  pub time_fits : IsSigned half64 h.time
  pub reserved_lt : h.reserved < 256 ^ 2

pub Reads-discover_head : (h : Head) → Fits h → Reads unmarshal (marshal h) h
unfolding unmarshal marshal
Reads-discover_head h f = Reads-bind _ (Reads-uint 1 h.version f.version_lt) (
    Reads-bind _ (Reads-uint 1 h.type f.type_lt) (
      Reads-bind _ (Reads-int64 h.time f.time_fits)
        (Reads-last _ (Reads-uint 2 h.reserved f.reserved_lt))))

pub Parses-discover_head : Parses unmarshal (Emits marshal Fits)
unfolding unmarshal marshal
Parses-discover_head = Parses-bind _ _ (Parses-uint 1) λ version version_lt.
    Parses-bind _ _ (Parses-uint 1) λ type type_lt. Parses-bind _ _ (Parses-int64) λ time time_fits.
      Parses-bind _ _ (Parses-uint 2) λ reserved reserved_lt. Parses-ret (
        rw append-nil,
        record {
          version_lt = version_lt;
          type_lt = type_lt;
          time_fits = time_fits;
          reserved_lt = reserved_lt;
        },
      )
