-- ===== src/Cp/Head.antt =====
-- serialize/cp/head.go: the four bytes in front of every message.
use blockchain.Common.{ℕ, ◌^◌, ◌<◌, Bytes, ◌++◌, append-nil}
use blockchain.Wire.{Reader, ◌>>=◌, ret, put_uint, read_uint}
use blockchain.Wire.Reads.{Reads, Reads-bind, Reads-last, Reads-uint}
use blockchain.Wire.Parses.{Parses, Emits, Parses-bind, Parses-ret, Parses-uint}
use blockchain.Cp.{core_protocol_v1}

pub record Head : Type 0 where
  pub version : ℕ
  pub type : ℕ
  pub reserved : ℕ

abbrev pub new_head : ℕ → Head
new_head t = record { version = core_protocol_v1; type = t; reserved = 0 }

unfoldable pub unmarshal : Reader Head
unmarshal = do
  version ← read_uint 1
  type ← read_uint 1
  reserved ← read_uint 2
  ret (record { version = version; type = type; reserved = reserved })

unfoldable pub marshal : Head → Bytes
marshal h = put_uint 1 h.version ++ (put_uint 1 h.type ++ put_uint 2 h.reserved)

-- The fields are within their Go types.
pub record Fits (h : Head) : Type 0 where
  pub version_lt : h.version < 256 ^ 1
  pub type_lt : h.type < 256 ^ 1
  pub reserved_lt : h.reserved < 256 ^ 2

pub Reads-head : (h : Head) → Fits h → Reads unmarshal (marshal h) h
unfolding unmarshal marshal
Reads-head h f = Reads-bind _ (Reads-uint 1 h.version f.version_lt) (
    Reads-bind _ (Reads-uint 1 h.type f.type_lt)
      (Reads-last _ (Reads-uint 2 h.reserved f.reserved_lt)))

pub Parses-head : Parses unmarshal (Emits marshal Fits)
unfolding unmarshal marshal
Parses-head = Parses-bind _ _ (Parses-uint 1) λ version hv.
    Parses-bind _ _ (Parses-uint 1) λ type ht. Parses-bind _ _ (Parses-uint 2) λ reserved hr.
      Parses-ret (rw append-nil, record { version_lt = hv; type_lt = ht; reserved_lt = hr })
